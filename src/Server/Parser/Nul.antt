-- ===== src/Server/Parser/Nul.antt =====
-- src/server/parser.cpp: arguments with a zero byte, which are compared as texts and reach the compiler
-- as C strings.
use mathlib.Core.List.{append_assoc}
use distplusplus.Base.{
  Bool, true, false, not, ◌&&◌, ◌≡◌, refl, ap, ◌⊎◌, inl, inr, List, [], ◌∷◌, ◌++◌, map, ok, err,
  arith, All,
}
use distplusplus.Base.Text.{
  Text, text_eq, is_one_of, starts_with_any, has_char, is_one_of-All, every, every-All,
}
use distplusplus.Common.Constants.{
  single_args_no_distribute, multi_args_no_distribute, single_args_no_distribute_starts_with,
  single_args_cpp, multi_args_cpp, single_args_cpp_starts_with,
}
use distplusplus.Common.Arguments.{Memory, Arg, c_text, c_str, c_text-append}
use distplusplus.Server.Parser.{parse, non_distributable}
use distplusplus.Server.Parser.Filters.{
  banned, takes_value, stands_alone, is_plain, is_plain→IsPlain, Filters, kept, has_compile,
}
use distplusplus.Server.Parser.Outcomes.{parse_accepts, parse-banned, parse-eq-ok_iff}

-- With a zero byte behind it the argument is in no table.
abbrev slips : Text → Bool
slips arg = is_plain (arg ++ (0 ∷ [])) && not (has_char arg 0)

abbrev Slips : Text → Type 0
Slips arg = slips arg ≡ true

tables_slip : All Slips single_args_no_distribute × All Slips multi_args_no_distribute
unfolding every is_plain has_char text_eq banned takes_value stands_alone is_one_of starts_with_any
    single_args_no_distribute multi_args_no_distribute single_args_no_distribute_starts_with
    single_args_cpp multi_args_cpp single_args_cpp_starts_with
tables_slip =
    (every-All slips single_args_no_distribute refl, every-All slips multi_args_no_distribute refl)

-- A whole argument that forbids remote compilation.
abbrev pub IsForbidden : Text → Type 0
IsForbidden arg =
    (is_one_of arg single_args_no_distribute ≡ true)
    ⊎ (is_one_of arg multi_args_no_distribute ≡ true)

forbidden-Slips : (arg : Text) → IsForbidden arg → Slips arg
forbidden-Slips arg (inl e) = is_one_of-All Slips arg single_args_no_distribute tables_slip.0 e
forbidden-Slips arg (inr e) = is_one_of-All Slips arg multi_args_no_distribute tables_slip.1 e

forbidden-banned : (arg : Text) → IsForbidden arg → banned arg ≡ true
unfolding banned
forbidden-banned arg (inl e) = ground (arith, e)
forbidden-banned arg (inr e) = ground (arith, e)

-- What a child process sees of the texts of its arguments.
abbrev pub seen : Memory → List Text → List Text
seen memory = map (λ s. c_text (c_str memory (Arg.shared s)))

-- If `arg` is an entry of one of the two tables of whole arguments that forbid remote compilation,
-- and `parse` returns `out` for other arguments, then `parse` refuses `arg` in front of these, accepts
-- `arg` with a zero byte behind it, and a child process sees `arg` in front of `out`.
pub parse_nul :
    (memory : Memory) (arg : Text) (args out : List Text)
    → IsForbidden arg
    → parse args ≡ ok out
    → (parse (arg ∷ args) ≡ err (non_distributable arg))
      × (parse ((arg ++ (0 ∷ [])) ∷ args) ≡ ok ((arg ++ (0 ∷ [])) ∷ out))
      × (seen memory ((arg ++ (0 ∷ [])) ∷ out) ≡ arg ∷ seen memory out)
unfolding has_compile c_str
parse_nul memory arg args out forbidden h =
    let slip = forbidden-Slips arg forbidden in
    let plain : is_plain (arg ++ (0 ∷ [])) ≡ true = ground (arith, slip) in
    let clean : has_char arg 0 ≡ false = ground (arith, slip) in
    let (f, c) = (parse-eq-ok_iff args out).0 h in
    let twice : (arg ++ (0 ∷ [])) ++ (0 ∷ []) ≡ arg ++ (0 ∷ 0 ∷ []) =
      append_assoc arg (0 ∷ []) (0 ∷ []) in
    (
      parse-banned args arg Filters.done (forbidden-banned arg forbidden),
      parse_accepts (kept (is_plain→IsPlain (arg ++ (0 ∷ [])) plain) f) (ground (arith, c)),
      ap (λ s. s ∷ seen memory out) (rw twice (c_text-append arg (0 ∷ []) clean)),
    )
