-- ===== src/Common/Constants.antt =====
-- src/common/constants.hpp: the argument tables that the client and the server share.
use distplusplus.Base.{List, [], ◌∷◌}
use distplusplus.Base.Text.{Text, codes}

pub data Language : Type 0 where
  none c cxx : Language

pub language_to_string : Language → Text
language_to_string Language.none = codes "none"
language_to_string Language.c = codes "C"
language_to_string Language.cxx = codes "CXX"

unfoldable pub single_args_cpp : List Text
single_args_cpp =
    codes "-C"
    ∷ codes "-CC"
    ∷ codes "-dD"
    ∷ codes "-dI"
    ∷ codes "-dM"
    ∷ codes "-dN"
    ∷ codes "-dU"
    ∷ codes "-fdebug-cpp"
    ∷ codes "-fdirectives-only"
    ∷ codes "-fdollars-in-identifiers"
    ∷ codes "-fextended-identifiers"
    ∷ codes "-flarge-source-files"
    ∷ codes "-fmax-include-depth"
    ∷ codes "-fno-canonical-system-headers"
    ∷ codes "-fpch-deps"
    ∷ codes "-fpch-preprocess"
    ∷ codes "-fpreprocessed"
    ∷ codes "-ftrack-macro-expansion"
    ∷ codes "-fworking-directory"
    ∷ codes "-H"
    ∷ codes "-M"
    ∷ codes "-MD"
    ∷ codes "-MG"
    ∷ codes "-MM"
    ∷ codes "-MMD"
    ∷ codes "-MP"
    ∷ codes "-Mno-modules"
    ∷ codes "-no-integrated-cpp"
    ∷ codes "-P"
    ∷ codes "-pthread"
    ∷ codes "-remap"
    ∷ codes "-traditional"
    ∷ codes "-traditional-cpp"
    ∷ codes "-trigraphs"
    ∷ codes "-undef"
    ∷ []

unfoldable pub multi_args_cpp : List Text
multi_args_cpp =
    codes "-imacros"
    ∷ codes "-include"
    ∷ codes "-Xpreprocessor"
    ∷ codes "-MT"
    ∷ codes "-MF"
    ∷ codes "-MQ"
    ∷ codes "-I"
    ∷ codes "-D"
    ∷ codes "-U"
    ∷ codes "-iquote"
    ∷ codes "-isystem"
    ∷ codes "-idirafter"
    ∷ []

unfoldable pub single_args_cpp_starts_with : List Text
single_args_cpp_starts_with = codes "-I" ∷ codes "-D" ∷ codes "-U" ∷ codes "-Wp," ∷ []

unfoldable pub multi_args_no_distribute : List Text
multi_args_no_distribute = codes "-dumpbase" ∷ codes "-dumpbase-ext" ∷ codes "-dumpdir" ∷ []

unfoldable pub single_args_no_distribute : List Text
single_args_no_distribute =
    codes "-M"
    ∷ codes "-MM"
    ∷ codes "-E"
    ∷ codes "-dr"
    ∷ codes "-Wa,-a"
    ∷ codes "-Wa,--MD"
    ∷ codes "-fbranch-probabilities"
    ∷ codes "--coverage"
    ∷ codes "-fprofile-arcs"
    ∷ codes "-ftest-coverage"
    ∷ codes "-include-pch"
    ∷ []

unfoldable pub single_args_no_distribute_starts_with : List Text
single_args_no_distribute_starts_with =
    codes "-fplugin="
    ∷ codes "-specs="
    ∷ codes "-ffile-prefix-map="
    ∷ codes "-fprofile-use"
    ∷ codes "-fauto-profile"
    ∷ codes "-finstrument-functions-exclude"
    ∷ codes "-save-temps"
    ∷ codes "-time"
    ∷ codes "-fdump"
    ∷ codes "-fdebug-prefix-map="
    ∷ codes "-fprofile-prefix-map="
    ∷ codes "-fmacro-prefix-map="
    ∷ []

unfoldable pub input_file_extension_c : List Text
input_file_extension_c = codes ".c" ∷ codes ".i" ∷ []

unfoldable pub input_file_extension_cxx : List Text
input_file_extension_cxx =
    codes ".C"
    ∷ codes ".cc"
    ∷ codes ".cxx"
    ∷ codes ".cpp"
    ∷ codes ".c++"
    ∷ codes ".cp"
    ∷ codes ".CPP"
    ∷ codes ".ii"
    ∷ []

unfoldable pub input_file_extension : List Text
input_file_extension =
    codes ".c"
    ∷ codes ".C"
    ∷ codes ".cc"
    ∷ codes ".cxx"
    ∷ codes ".cpp"
    ∷ codes ".c++"
    ∷ codes ".cp"
    ∷ codes ".CPP"
    ∷ codes ".i"
    ∷ codes ".ii"
    ∷ []

unfoldable pub x_args_c : List Text
x_args_c = codes "c" ∷ codes "cpp-output" ∷ []

unfoldable pub x_args_cxx : List Text
x_args_cxx = codes "c++" ∷ codes "c++-cpp-output" ∷ []
