-- ===== src/Agreement.antt =====
-- src/client against src/server: what both sides have to agree on. Here, when the arguments that a
-- client collects can be filtered by the server.
pub mod Tables
pub mod Invariant
pub mod Jobs
pub mod EndToEnd
pub mod Vacancy
pub mod Served
pub mod Fit
pub mod Compiles
pub mod Works
pub mod Names
use mathlib.Core.List.{append-nil, append_assoc}
use distplusplus.Base.{
  ℕ, Bool, true, false, not, ◌||◌, ◌&&◌, ◌≡◌, ◌≢◌, refl, sym, ap, ◌∙◌, ◌⊎◌, inl, inr, List, [], ◌∷◌,
  ◌++◌, Option, none, some, Result, ok, err, ◌>>=◌, arith, if◌then◌else◌, Bool-cases, drop, All,
  subst,
}
use distplusplus.Base.Text.{
  Text, codes, text_eq, text_eq→≡, is_empty, starts_with_any, is_one_of, is_one_of-All,
}
use Tables.{tables_disjoint, IsQuiet}
use distplusplus.Common.Constants.{
  Language, multi_args_cpp, single_args_cpp, x_args_c, x_args_cxx, single_args_no_distribute,
  multi_args_no_distribute, single_args_no_distribute_starts_with, single_args_cpp_starts_with,
}
use distplusplus.Server.Parser.Filters.{
  banned, takes_value, stands_alone, IsPlain, IsPair, IsAlone, Filters, done, kept, alone, pair,
  Filters-append, has_compile, has_compile-append,
}
use distplusplus.Client.Parser.{FileSystem, Stop, Parser, Kind, kind, forbidden}

-- The server can filter the arguments, and is left with no `-c`.
abbrev pub Filtered : List Text → Type 0
Filtered args = (out : List Text) × Filters args out × (has_compile out ≡ false)

pub Filtered-append : (xs ys : List Text) → Filtered xs → Filtered ys → Filtered (xs ++ ys)
Filtered-append xs ys (out, f, e) (more, g, d) =
    (out ++ more, Filters-append f g, has_compile-append out more ∙ rw (e, d))

-- The two parsers forbid the same arguments.
pub banned_of_forbidden : (arg : Text) → forbidden arg ≡ false → banned arg ≡ false
unfolding forbidden banned
banned_of_forbidden arg h = ground arith

pub Filtered-one :
    (arg : Text)
    → forbidden arg ≡ false
    → is_one_of arg multi_args_cpp ≡ false
    → text_eq arg (codes "-c") ≡ false
    → Filtered (arg ∷ [])
unfolding takes_value has_compile
Filtered-one arg f t c = elim (Bool-cases (stands_alone arg)) [
  | inl e ↦ (
    [],
    alone (record { not_banned = banned_of_forbidden arg f; alone = e; no_pair = inl t }) done,
    refl,
  )
  | inr e ↦ (
    arg ∷ [],
    kept (record { not_banned = banned_of_forbidden arg f; no_value = t; not_alone = e }) done,
    rw c,
  )
]

-- Two arguments that mean nothing to the server, and a pair with any value.
pub Filtered-two : (a b : Text) → IsQuiet a → IsQuiet b → Filtered (a ∷ b ∷ [])
unfolding has_compile
Filtered-two a b f g =
    (a ∷ b ∷ [], kept f.plain (kept g.plain done), rw (f.no_compile, g.no_compile))

pub Filtered-pair : (arg value : Text) → IsPair arg → Filtered (arg ∷ value ∷ [])
unfolding has_compile
Filtered-pair arg value p = ([], pair p done, refl)

pub Filtered-nil : Filtered []
unfolding has_compile
Filtered-nil = ([], done, refl)

pub IsPair-value :
    (arg : Text) → forbidden arg ≡ false → is_one_of arg multi_args_cpp ≡ true → IsPair arg
unfolding takes_value
IsPair-value arg f t = record {
  not_banned = banned_of_forbidden arg f;
  listed = t;
  not_single = ground (
    arith,
    is_one_of-All (λ s. not (is_one_of s single_args_cpp) ≡ true) arg multi_args_cpp tables_disjoint
        t,
  );
}
