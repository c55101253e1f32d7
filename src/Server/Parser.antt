-- ===== src/Server/Parser.antt =====
-- src/server/parser.cpp: which arguments of a request reach the compiler.
pub mod Filters
pub mod Outcomes
pub mod Nul
use distplusplus.Base.{Bool, true, false, ◌||◌, List, [], ◌∷◌, ◌++◌, Result, ok, err, if◌then◌else◌}
use distplusplus.Base.Text.{Text, codes, text_eq, is_one_of, starts_with_any}
use distplusplus.Common.Constants.{
  single_args_no_distribute, multi_args_no_distribute, single_args_no_distribute_starts_with,
  single_args_cpp, multi_args_cpp, single_args_cpp_starts_with,
}

-- What the loop body does with one argument.
pub data Verdict : Type 0 where
  reject filter filter_pair keep : Verdict

-- The tests of the loop body, in their order.
unfoldable pub verdict : Text → Verdict
verdict arg =
    if is_one_of arg single_args_no_distribute
    then Verdict.reject
    else if is_one_of arg multi_args_no_distribute
    then Verdict.reject
    else if starts_with_any arg single_args_no_distribute_starts_with
    then Verdict.reject
    else if is_one_of arg single_args_cpp
    then Verdict.filter
    else if is_one_of arg multi_args_cpp
    then Verdict.filter_pair
    else if starts_with_any arg single_args_cpp_starts_with
    then Verdict.filter
    else Verdict.keep

abbrev pub non_distributable : Text → Text
non_distributable arg = codes "encountered non-distributable argument " ++ arg

abbrev pub last_argument : Text → Text
last_argument arg =
    codes "tried to filter multi arg " ++ (arg ++ codes " but it is the last argument")

abbrev pub not_a_compile : Text
not_a_compile = codes "invocation seems non-distributable - called for link?"

abbrev pub is_last : List Text → Bool
is_last [] = true
is_last (_ ∷ _) = false

-- `skip` is set where the loop has advanced `i` past the value of a filtered pair.
unfoldable pub parse_loop : List Text → Bool → List Text → Bool → Result Text (List Text)
parse_loop [] skip args can_distribute = if can_distribute then ok args else err not_a_compile
parse_loop (_ ∷ rest) true args can_distribute = parse_loop rest false args can_distribute
parse_loop (arg ∷ rest) false args can_distribute = elim (verdict arg) [
  | Verdict.reject ↦ err (non_distributable arg)
  | Verdict.filter ↦ parse_loop rest false args can_distribute
  | Verdict.filter_pair ↦
      if is_last rest then err (last_argument arg) else parse_loop rest true args can_distribute
  | Verdict.keep ↦
      parse_loop rest false (args ++ (arg ∷ [])) (can_distribute || text_eq arg (codes "-c"))
]

-- `Parser(args).args()`, or the message of the `CannotProcessSignal`.
unfoldable pub parse : List Text → Result Text (List Text)
unfolding parse_loop
parse args = parse_loop args false [] false
