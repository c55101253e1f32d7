-- ===== src/Tests/Client.antt =====
-- Command lines of the client, over small file systems.
use distplusplus.Base.{
  ◌≡◌, ◌≢◌, refl, true, false, ◌||◌, ◌⊎◌, inl, inr, List, [], ◌∷◌, some, none, ok, err, All,
  if◌then◌else◌, Bool-cases, arith,
}
use distplusplus.Base.Text.{
  Text, codes, text_eq, is_empty, starts_with, has_char, is_one_of, starts_with_any, get_lines,
  after_first,
}
use distplusplus.Base.FilePath.{filename, stem, extension}
use distplusplus.Common.Constants.{
  Language, single_args_no_distribute, single_args_no_distribute_starts_with,
  multi_args_no_distribute, multi_args_cpp, input_file_extension, input_file_extension_c,
  input_file_extension_cxx, x_args_c, x_args_cxx,
}
use distplusplus.Client.Parser.{
  FileSystem, Stop, Parser, forbidden, Kind, kind, detect_language, check_input_file_candidate,
  read_args, take_value, option_step, parse_loop, with_language, check_job, conclude, parse_args,
  parse,
}
use distplusplus.Client.Parser.Distributes.{IsJob, parse-IsJob}
use distplusplus.Client.Parser.ArgsFiles.{IsRanked, Below, parse-ne-out_of_fuel, parse_self}

-- A source file, and an argument file that names it.
abbrev one_source : FileSystem
one_source = record {
  is_regular_file = λ p. some (text_eq p (codes "a.c") || text_eq p (codes "args"));
  contents = λ p. if text_eq p (codes "args") then codes "-c  a.c\n\n-O2" else [];
}

abbrev command : List Text
command = codes "-Wall" ∷ codes "@args" ∷ codes "-o" ∷ codes "b.o" ∷ []

abbrev job : Parser
job = record {
  args = codes "-Wall" ∷ codes "-O2" ∷ [];
  mode_arg = codes "-c";
  infile = codes "a.c";
  outfile = codes "b.o";
  target = none;
  can_distribute = some true;
  language = Language.c;
}

job_parsed : parse one_source 1 command ≡ ok job
unfolding parse parse_args parse_loop option_step kind forbidden take_value
    check_input_file_candidate detect_language read_args get_lines conclude check_job with_language
    text_eq is_empty has_char is_one_of starts_with_any filename stem extension after_first
    single_args_no_distribute single_args_no_distribute_starts_with multi_args_no_distribute
    multi_args_cpp input_file_extension input_file_extension_c input_file_extension_cxx x_args_c
    x_args_cxx
job_parsed = refl

parse-IsJob_example : (job.can_distribute ≡ some false) ⊎ IsJob job
parse-IsJob_example = parse-IsJob one_source 1 command job job_parsed

quiet_names :
    All (λ arg. kind one_source arg ≢ Kind.args_file) (codes "-c" ∷ codes "a.c" ∷ codes "-O2" ∷ [])
unfolding kind forbidden text_eq has_char is_one_of starts_with_any single_args_no_distribute
    single_args_no_distribute_starts_with multi_args_no_distribute multi_args_cpp starts_with
quiet_names = (λ e. cc, (λ e. cc, (λ e. cc, tt)))

one_source-IsRanked : IsRanked one_source (λ p. 0)
unfolding read_args get_lines is_empty
one_source-IsRanked file h = elim (Bool-cases (text_eq file (codes "args"))) [
  | inl e ↦
      let (c, (a, (o, _))) = quiet_names in
      rw e (λ n. absurd (c n.0), (λ n. absurd (a n.0), (λ n. absurd (o n.0), tt)))
  | inr e ↦ rw e tt
]

Below-one : (args : List Text) → All (Below one_source (λ p. 0) 1) args
Below-one [] = tt
Below-one (arg ∷ args) = (λ n. omega arith, Below-one args)

parse-ne-out_of_fuel_example : parse one_source 1 command ≢ err Stop.out_of_fuel
parse-ne-out_of_fuel_example =
    parse-ne-out_of_fuel one_source (λ p. 0) 1 command one_source-IsRanked (Below-one command)

-- A file whose content is its own name.
abbrev own_name : FileSystem
own_name = record {
  is_regular_file = λ p. some (text_eq p (codes "self"));
  contents = λ p. codes "@self -c";
}

self_plain : forbidden (codes "@self") ≡ false
unfolding forbidden text_eq has_char is_one_of starts_with_any single_args_no_distribute
    single_args_no_distribute_starts_with multi_args_no_distribute
self_plain = refl

self_regular : own_name.is_regular_file (codes "self") ≡ some true
unfolding text_eq
self_regular = refl

self_read : read_args (own_name.contents (codes "self")) ≡ codes "@self" ∷ codes "-c" ∷ []
unfolding read_args get_lines is_empty
self_read = refl

parse_self_example : parse own_name 9 (codes "@self" ∷ codes "a.c" ∷ []) ≡ err Stop.out_of_fuel
parse_self_example =
    parse_self own_name (codes "self") (codes "-c" ∷ []) self_plain self_regular self_read 9
      (codes "a.c" ∷ [])
