-- ===== src/Client/Parser.antt =====
-- src/client/parser.hpp and parser.cpp: the command line of the wrapped compiler. The file system is
-- a parameter. `fuel` bounds how deep argument files may name one another; the program has no bound.
pub mod Rule
pub mod Distributes
pub mod ArgsFiles
use distplusplus.Base.{
  ℕ, zero, suc, Bool, true, false, not, ◌||◌, ◌&&◌, List, [], ◌∷◌, ◌++◌, drop, Option, none, some,
  Result, ok, err, ◌>>=◌, if◌then◌else◌,
}
use distplusplus.Base.Text.{
  Text, codes, text_eq, is_empty, starts_with, has_char, is_one_of, starts_with_any, get_lines,
  after_first,
}
use distplusplus.Base.FilePath.{filename, stem, extension}
use distplusplus.Common.Constants.{
  Language, single_args_no_distribute, single_args_no_distribute_starts_with,
  multi_args_no_distribute, multi_args_cpp, input_file_extension, input_file_extension_c,
  input_file_extension_cxx, x_args_c, x_args_cxx,
}

pub record FileSystem : Type 0 where
  -- `none` where it throws `filesystem_error`, as for a name that is too long
  pub is_regular_file : Text → Option Bool
  pub contents : Text → Text

-- What ends a parse early: the two exceptions of the parser, the one of the file system, which `main`
-- does not catch, and the model's bound.
pub data Stop : Type 0 where
  fallback_signal filesystem_error out_of_fuel : Stop
  parser_error : Text → Stop

-- The members of `Parser`; an empty path is one that is not set.
pub record Parser : Type 0 where
  pub args : List Text
  pub mode_arg : Text
  pub infile : Text
  pub outfile : Text
  pub target : Option Text
  pub can_distribute : Option Bool
  pub language : Language

abbrev pub empty_parser : Parser
empty_parser = record {
  args = [];
  mode_arg = [];
  infile = [];
  outfile = [];
  target = none;
  can_distribute = none;
  language = Language.none;
}

abbrev pub push : Text → Parser → Parser
push arg p = record p { args = p.args ++ (arg ∷ []) }

-- The branch that the loop takes for an argument.
pub data Kind : Type 0 where
  falls_back args_file output output_joined mode language_option target_option target_joined : Kind
  value_option regular_file other throws : Kind

unfoldable pub forbidden : Text → Bool
forbidden arg =
    has_char arg b' '
    || is_one_of arg single_args_no_distribute
    || starts_with_any arg single_args_no_distribute_starts_with
    || is_one_of arg multi_args_no_distribute

unfoldable pub kind : FileSystem → Text → Kind
unfolding forbidden
kind fs arg =
    if forbidden arg
    then Kind.falls_back
    else if starts_with arg (codes "@")
    then Kind.args_file
    else if text_eq arg (codes "-o")
    then Kind.output
    else if starts_with arg (codes "-o")
    then Kind.output_joined
    else if text_eq arg (codes "-c") || text_eq arg (codes "-S")
    then Kind.mode
    else if text_eq arg (codes "-x")
    then Kind.language_option
    else if text_eq arg (codes "-target")
    then Kind.target_option
    else if starts_with arg (codes "--target=")
    then Kind.target_joined
    else if is_one_of arg multi_args_cpp
    then Kind.value_option
    else elim (fs.is_regular_file arg) [
      | none ↦ Kind.throws
      | some true ↦ Kind.regular_file
      | some false ↦ Kind.other
    ]

-- The language of a new input file, unless one is set.
unfoldable pub detect_language : Text → Language → Language
detect_language ext Language.none =
    if is_one_of ext input_file_extension_c
    then Language.c
    else if is_one_of ext input_file_extension_cxx
    then Language.cxx
    else Language.none
detect_language ext Language.c = Language.c
detect_language ext Language.cxx = Language.cxx

unfoldable pub check_input_file_candidate : Text → Parser → Result Stop Parser
unfolding detect_language
check_input_file_candidate file p =
    if is_one_of (extension file) input_file_extension
    then if not (is_empty p.infile)
      then err (
          Stop.parser_error
            (codes "multiple input files parsed: " ++ (p.infile ++ (codes " & " ++ file))))
      else ok (record p { infile = file; language = detect_language (extension file) p.language })
    else ok (push file p)

-- The arguments that `readArgsFile` collects.
nonempty : List Text → List Text
nonempty [] = []
nonempty (s ∷ ss) = if is_empty s then nonempty ss else s ∷ nonempty ss

words_of : List Text → List Text
unfolding nonempty
words_of [] = []
words_of (line ∷ lines) = nonempty (get_lines b' ' line) ++ words_of lines

unfoldable pub read_args : Text → List Text
unfolding words_of nonempty
read_args contents = words_of (nonempty (get_lines b'\n' contents))

-- What the argument behind an option is for.
pub data Pending : Type 0 where
  to_outfile to_language to_target to_args : Pending

unfoldable pub take_value : Pending → Text → Parser → Parser
take_value Pending.to_outfile value p = record p { outfile = value }
take_value Pending.to_language value p =
    if is_one_of value x_args_c
    then record (push value p) { language = Language.c }
    else if is_one_of value x_args_cxx
    then record (push value p) { language = Language.cxx }
    else record (push value p) { can_distribute = some false }
take_value Pending.to_target value p = record (push value p) { target = some value }
take_value Pending.to_args value p = push value p

-- The value is asked for, unless there is no next argument.
abbrev pub asking : Bool → Text → Pending → Parser → Result Stop (Option Pending × Parser)
asking last message pending p =
    if last then err (Stop.parser_error message) else ok (some pending, p)

abbrev pub going_on : Parser → Result Stop (Option Pending × Parser)
going_on p = ok (none, p)

module _ (fs : FileSystem) (nested : List Text → Parser → Result Stop Parser) where
  -- The body of the loop, up to where it takes a value; `last` is `i + 1 == args.size()`.
  unfoldable pub option_step : Kind → Text → Bool → Parser → Result Stop (Option Pending × Parser)
  option_step Kind.falls_back arg last p = err Stop.fallback_signal
  option_step Kind.args_file arg last p = elim (fs.is_regular_file (drop 1 arg)) [
    | none ↦ err Stop.filesystem_error
    | some true ↦ nested (read_args (fs.contents (drop 1 arg))) p >>= going_on
    | some false ↦
        err (Stop.parser_error (codes "argument file: " ++ (arg ++ codes " doesn't seem to exist")))
  ]
  option_step Kind.throws arg last p = err Stop.filesystem_error
  option_step Kind.output arg last p =
      if last
      then err (Stop.parser_error (codes "output file specifier is the last argument"))
      else if not (is_empty p.outfile)
      then err (
          Stop.parser_error
            (codes "multiple output files parsed: " ++ (p.outfile ++ (codes " & " ++ arg))))
      else ok (some Pending.to_outfile, p)
  option_step Kind.output_joined arg last p = going_on (record p { outfile = drop 2 arg })
  option_step Kind.mode arg last p = elim p.can_distribute [
    | none ↦ going_on (record p { mode_arg = arg; can_distribute = some true })
    | some b ↦ going_on (record p { mode_arg = arg })
  ]
  option_step Kind.language_option arg last p =
      asking last (codes "multiArg -x is the last argument") Pending.to_language (push arg p)
  option_step Kind.target_option arg last p =
      asking last (codes "clang -target is the last argument") Pending.to_target (push arg p)
  option_step Kind.target_joined arg last p =
      going_on (record (push arg p) { target = some (after_first b'=' arg) })
  option_step Kind.value_option arg last p =
      asking last (codes "multi argument " ++ (arg ++ codes " is the last argument"))
        Pending.to_args (push arg p)
  option_step Kind.regular_file arg last p = check_input_file_candidate arg p >>= going_on
  option_step Kind.other arg last p = going_on (push arg p)

  abbrev pub is_last : List Text → Bool
  is_last [] = true
  is_last (_ ∷ _) = false

  unfoldable pub parse_loop : List Text → Option Pending → Parser → Result Stop Parser
  parse_loop [] pending p = ok p
  parse_loop (value ∷ rest) (some pending) p = parse_loop rest none (take_value pending value p)
  parse_loop (arg ∷ rest) none p =
      option_step (kind fs arg) arg (is_last rest) p >>= λ r. parse_loop rest r.0 r.1

-- The last check of the constructor.
unfoldable pub with_language : Language → Parser → Result Stop Parser
with_language Language.none p = err (Stop.parser_error (codes "failed to determine language"))
with_language Language.c p = ok p
with_language Language.cxx p = ok p

-- `outfile`, with the default that the constructor fills in.
abbrev pub named_output : Parser → Text
named_output p = if is_empty p.outfile then stem p.infile ++ codes ".o" else p.outfile

-- The checks of the constructor, by `_canDistribute`.
unfoldable pub check_job : Option Bool → Parser → Result Stop Parser
unfolding with_language
check_job none p = ok (record p { can_distribute = some false })
check_job (some false) p = ok p
check_job (some true) p =
    if is_empty p.infile
    then err (Stop.parser_error (codes "input file not specified or does not exist"))
    else with_language p.language (record p { outfile = named_output p })

-- The constructor, behind `parseArgs`.
unfoldable pub conclude : Parser → Result Stop Parser
unfolding check_job
conclude p =
    if not (is_empty p.infile) && text_eq (filename p.infile) (codes "conftest.c")
    then ok (record p { can_distribute = some false })
    else check_job p.can_distribute p

module _ (fs : FileSystem) where
  unfoldable pub parse_args : ℕ → List Text → Parser → Result Stop Parser
  unfolding parse_loop
  parse_args zero args p = parse_loop fs (λ _ _. err Stop.out_of_fuel) args none p
  parse_args (suc fuel) args p = parse_loop fs (parse_args fuel) args none p

  -- The constructor.
  unfoldable pub parse : ℕ → List Text → Result Stop Parser
  unfolding parse_args conclude
  parse fuel args = parse_args fuel args empty_parser >>= conclude
