-- ===== src/Agreement/Tables.antt =====
-- Facts about the tables of src/common/constants.hpp, by evaluation.
use distplusplus.Base.{Bool, true, false, ◌&&◌, not, ◌≡◌, refl, List, [], ◌∷◌, All, arith}
use distplusplus.Base.Text.{Text, codes, text_eq, is_one_of, starts_with_any, every, every-All}
use distplusplus.Common.Constants.{
  single_args_no_distribute, multi_args_no_distribute, single_args_no_distribute_starts_with,
  single_args_cpp, multi_args_cpp, single_args_cpp_starts_with, x_args_c, x_args_cxx,
}
use distplusplus.Server.Parser.Filters.{
  banned, takes_value, stands_alone, is_plain, IsPlain, is_plain→IsPlain,
}

-- Plain, and not what makes the server accept.
pub record IsQuiet (arg : Text) : Type 0 where
  pub plain : IsPlain arg
  pub no_compile : text_eq arg (codes "-c") ≡ false

is_quiet : Text → Bool
is_quiet arg = is_plain arg && not (text_eq arg (codes "-c"))

is_quiet→IsQuiet : (arg : Text) → is_quiet arg ≡ true → IsQuiet arg
unfolding is_quiet
is_quiet→IsQuiet arg h = record {
  plain = is_plain→IsPlain arg (ground arith);
  no_compile = ground arith;
}

every-IsQuiet : (ts : List Text) → every is_quiet ts ≡ true → All IsQuiet ts
unfolding every
every-IsQuiet [] h = tt
every-IsQuiet (t ∷ ts) h = (is_quiet→IsQuiet t (ground arith), every-IsQuiet ts (ground arith))

-- `is_quiet` with all that it computes with.
quiet_now : Text → Bool
unfolding is_quiet is_plain text_eq banned takes_value stands_alone is_one_of starts_with_any
    single_args_no_distribute multi_args_no_distribute single_args_no_distribute_starts_with
    single_args_cpp multi_args_cpp single_args_cpp_starts_with
quiet_now = is_quiet

-- No argument that takes a value is also one that stands alone.
pub tables_disjoint : All (λ t. not (is_one_of t single_args_cpp) ≡ true) multi_args_cpp
unfolding every quiet_now
tables_disjoint = every-All (λ t. not (is_one_of t single_args_cpp)) multi_args_cpp refl

-- The languages that the client knows mean nothing to the server.
pub languages_IsQuiet : All IsQuiet x_args_c × All IsQuiet x_args_cxx
unfolding every quiet_now x_args_c x_args_cxx
languages_IsQuiet = (every-IsQuiet x_args_c refl, every-IsQuiet x_args_cxx refl)

-- Nor do the options that the client sends by itself.
pub options_IsQuiet : All IsQuiet (codes "-x" ∷ codes "-target" ∷ codes "-S" ∷ [])
unfolding every quiet_now
options_IsQuiet = every-IsQuiet (codes "-x" ∷ codes "-target" ∷ codes "-S" ∷ []) refl

pub compile_IsPlain : IsPlain (codes "-c")
unfolding quiet_now
compile_IsPlain = is_plain→IsPlain (codes "-c") refl
