-- ===== src/Tests/Agreement.antt =====
-- The jobs of a clang that is told the build's target.
use distplusplus.Base.{◌≡◌, refl, true, List, [], ◌∷◌, some, none, ok, err}
use distplusplus.Base.Text.{
  Text, codes, text_eq, is_empty, has_char, is_one_of, starts_with_any, get_lines, after_first,
}
use distplusplus.Base.FilePath.{filename, stem, extension}
use distplusplus.Common.Constants.{
  Language, single_args_no_distribute, single_args_no_distribute_starts_with,
  multi_args_no_distribute, multi_args_cpp, single_args_cpp, single_args_cpp_starts_with,
  input_file_extension, input_file_extension_c, input_file_extension_cxx, x_args_c, x_args_cxx,
}
use distplusplus.Server.Parser.{not_a_compile, parse as server_parse}
use distplusplus.Server.Parser.Filters.{
  banned, takes_value, stands_alone, is_plain, is_plain→IsPlain,
}
use distplusplus.Client.Parser.{
  FileSystem, Parser, forbidden, kind, detect_language, check_input_file_candidate, read_args,
  take_value, option_step, parse_loop, with_language, check_job, conclude, parse_args,
  parse as client_parse,
}
use distplusplus.Client.Command.{job_args}
use distplusplus.Agreement.Tables.{IsQuiet}
use distplusplus.Agreement.Jobs.{parse-job_args, parse-job_args_assembly}

abbrev one_source : FileSystem
one_source = record { is_regular_file = λ p. some (text_eq p (codes "a.cc")); contents = λ p. [] }

abbrev job : Text → Parser
job mode = record {
  args = codes "-O2" ∷ codes "-D" ∷ codes "X" ∷ [];
  mode_arg = mode;
  infile = codes "a.cc";
  outfile = codes "a.o";
  target = none;
  can_distribute = some true;
  language = Language.cxx;
}

abbrev command : Text → List Text
command mode = codes "-O2" ∷ codes "-D" ∷ codes "X" ∷ mode ∷ codes "a.cc" ∷ []

commands_parsed :
    (client_parse one_source 0 (command (codes "-c")) ≡ ok (job (codes "-c")))
    × (client_parse one_source 0 (command (codes "-S")) ≡ ok (job (codes "-S")))
unfolding client_parse parse_args parse_loop option_step kind forbidden take_value
    check_input_file_candidate detect_language read_args get_lines conclude check_job with_language
    text_eq is_empty has_char is_one_of starts_with_any filename stem extension after_first
    single_args_no_distribute single_args_no_distribute_starts_with multi_args_no_distribute
    multi_args_cpp input_file_extension input_file_extension_c input_file_extension_cxx x_args_c
    x_args_cxx
commands_parsed = (refl, refl)

target-IsQuiet : IsQuiet (codes "x86_64-linux-gnu")
unfolding is_plain text_eq banned takes_value stands_alone is_one_of starts_with_any
    single_args_no_distribute multi_args_no_distribute single_args_no_distribute_starts_with
    single_args_cpp multi_args_cpp single_args_cpp_starts_with
target-IsQuiet = record {
  plain = is_plain→IsPlain (codes "x86_64-linux-gnu") refl;
  no_compile = refl;
}

parse-job_args_example :
    (out : List Text) × (server_parse
        (job_args (codes "x86_64-linux-gnu") (codes "clang++") (job (codes "-c")))
      ≡ ok out)
parse-job_args_example =
    parse-job_args one_source 0 (command (codes "-c")) (codes "x86_64-linux-gnu") (codes "clang++")
      (job (codes "-c")) commands_parsed.0 refl refl target-IsQuiet refl

parse-job_args_assembly_example :
    server_parse (job_args (codes "x86_64-linux-gnu") (codes "clang++") (job (codes "-S")))
    ≡ err not_a_compile
parse-job_args_assembly_example =
    parse-job_args_assembly one_source 0 (command (codes "-S")) (codes "x86_64-linux-gnu")
      (codes "clang++") (job (codes "-S")) commands_parsed.1 refl refl target-IsQuiet refl
