-- ===== src/Client/Command.antt =====
-- src/client/main.cpp and `mapCompiler` of src/common/common.cpp: the job that `func` makes of a
-- command line. The build's target triple DISTPLUSPLUS_BUILD_TARGET is a parameter.
use distplusplus.Base.{List, [], ◌∷◌, ◌++◌, Option, none, some, if◌then◌else◌}
use distplusplus.Base.Text.{Text, codes, starts_with, has_text}
use distplusplus.Client.Parser.{Parser}

pub data CompilerType : Type 0 where
  unknown clang gcc : CompilerType

unfoldable pub map_compiler : Text → CompilerType
map_compiler compiler =
    if has_text compiler (codes "clang")
    then CompilerType.clang
    else if has_text compiler (codes "gcc")
    then CompilerType.gcc
    else if has_text compiler (codes "g++")
    then CompilerType.gcc
    else CompilerType.unknown

module _ (build_target : Text) where
  -- Clang is told the target by an argument, unless the user has.
  unfoldable pub target_args : CompilerType → Option Text → List Text
  target_args CompilerType.clang none = codes "-target" ∷ build_target ∷ []
  target_args CompilerType.clang (some t) = []
  target_args CompilerType.gcc t = []
  target_args CompilerType.unknown t = []

  -- An unspecific gcc is named with the target as its prefix.
  unfoldable pub compiler_for : CompilerType → Text → Text
  compiler_for CompilerType.gcc name =
      if starts_with name (codes "g++")
      then build_target ++ (codes "-" ++ name)
      else if starts_with name (codes "gcc")
      then build_target ++ (codes "-" ++ name)
      else name
  compiler_for CompilerType.clang name = name
  compiler_for CompilerType.unknown name = name

  unfoldable pub compiler_name : Text → Text
  unfolding compiler_for map_compiler
  compiler_name name = compiler_for (map_compiler name) name

  -- `args` before the preprocessor's own arguments are added.
  unfoldable pub common_args : Text → Parser → List Text
  unfolding target_args map_compiler
  common_args name p = p.args ++ target_args (map_compiler name) p.target

  -- The preprocessor's arguments, and those of the job that is sent.
  unfoldable pub preprocessor_args : Text → Parser → List Text
  unfolding common_args
  preprocessor_args name p = common_args name p ++ (p.infile ∷ codes "-E" ∷ [])

  unfoldable pub job_args : Text → Parser → List Text
  unfolding common_args
  job_args name p = common_args name p ++ (p.mode_arg ∷ [])
