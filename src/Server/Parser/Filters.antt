-- ===== src/Server/Parser/Filters.antt =====
-- The arguments that `parse` lets through, described by what each argument is.
use mathlib.Core.List.{append-nil, append_assoc, Sublistᴰ}
use mathlib.Core.Bool.{or_assoc, or-false}
use distplusplus.Base.{
  Bool, true, false, not, ◌||◌, ◌≡◌, refl, ◌∙◌, ◌⊎◌, List, [], ◌∷◌, ◌++◌, arith, All,
}
use distplusplus.Base.Text.{Text, codes, text_eq, is_one_of, starts_with_any}
use distplusplus.Common.Constants.{
  single_args_no_distribute, multi_args_no_distribute, single_args_no_distribute_starts_with,
  single_args_cpp, multi_args_cpp, single_args_cpp_starts_with,
}
use distplusplus.Server.Parser.{Verdict, verdict, parse_loop}

-- Arguments that forbid remote compilation.
unfoldable pub banned : Text → Bool
banned arg =
    is_one_of arg single_args_no_distribute
    || is_one_of arg multi_args_no_distribute
    || starts_with_any arg single_args_no_distribute_starts_with

-- Preprocessor arguments whose value is the next argument.
unfoldable pub takes_value : Text → Bool
takes_value arg = is_one_of arg multi_args_cpp

-- Preprocessor arguments that stand alone.
unfoldable pub stands_alone : Text → Bool
stands_alone arg = is_one_of arg single_args_cpp || starts_with_any arg single_args_cpp_starts_with

-- What is left is for the compiler proper.
pub record IsPlain (arg : Text) : Type 0 where
  pub not_banned : banned arg ≡ false
  pub no_value : takes_value arg ≡ false
  pub not_alone : stands_alone arg ≡ false

pub record IsPair (arg : Text) : Type 0 where
  pub not_banned : banned arg ≡ false
  pub listed : takes_value arg ≡ true
  pub not_single : is_one_of arg single_args_cpp ≡ false

pub record IsAlone (arg : Text) : Type 0 where
  pub not_banned : banned arg ≡ false
  pub alone : stands_alone arg ≡ true
  pub no_pair : (takes_value arg ≡ false) ⊎ (is_one_of arg single_args_cpp ≡ true)

pub verdict-IsPlain : (arg : Text) → verdict arg ≡ Verdict.keep → IsPlain arg
unfolding verdict banned takes_value stands_alone
verdict-IsPlain arg h = ground arith

pub verdict-IsPair : (arg : Text) → verdict arg ≡ Verdict.filter_pair → IsPair arg
unfolding verdict banned takes_value
verdict-IsPair arg h = ground arith

pub verdict-IsAlone : (arg : Text) → verdict arg ≡ Verdict.filter → IsAlone arg
unfolding verdict banned takes_value stands_alone
verdict-IsAlone arg h = ground arith

pub verdict-banned : (arg : Text) → verdict arg ≡ Verdict.reject → banned arg ≡ true
unfolding verdict banned
verdict-banned arg h = ground arith

pub IsPlain-verdict : (arg : Text) → IsPlain arg → verdict arg ≡ Verdict.keep
unfolding verdict banned takes_value stands_alone
IsPlain-verdict arg h = ground arith

pub IsPair-verdict : (arg : Text) → IsPair arg → verdict arg ≡ Verdict.filter_pair
unfolding verdict banned takes_value
IsPair-verdict arg h = ground arith

pub IsAlone-verdict : (arg : Text) → IsAlone arg → verdict arg ≡ Verdict.filter
unfolding verdict banned takes_value stands_alone
IsAlone-verdict arg h = ground arith

pub banned-verdict : (arg : Text) → banned arg ≡ true → verdict arg ≡ Verdict.reject
unfolding verdict banned
banned-verdict arg h = ground arith

none_of : (a b c : Bool) → not (a || b || c) ≡ true → (a ≡ false) × (b ≡ false) × (c ≡ false)
none_of a b c h = ground arith

-- The same as a test, for concrete arguments.
unfoldable pub is_plain : Text → Bool
is_plain arg = not (banned arg || takes_value arg || stands_alone arg)

pub is_plain→IsPlain : (arg : Text) → is_plain arg ≡ true → IsPlain arg
unfolding is_plain
is_plain→IsPlain arg h =
    let (b, v, a) = none_of (banned arg) (takes_value arg) (stands_alone arg) h in
    record { not_banned = b; no_value = v; not_alone = a }

-- The arguments on the left, without the preprocessor's, are those on the right.
pub data Filters : List Text → List Text → Type 0 where
  done : Filters [] []
  kept :
      {arg : Text} {rest out : List Text}
      → IsPlain arg
      → Filters rest out
      → Filters (arg ∷ rest) (arg ∷ out)
  alone :
      {arg : Text} {rest out : List Text}
      → IsAlone arg
      → Filters rest out
      → Filters (arg ∷ rest) out
  pair :
      {arg next : Text} {rest out : List Text}
      → IsPair arg
      → Filters rest out
      → Filters (arg ∷ next ∷ rest) out

unfoldable pub has_compile : List Text → Bool
has_compile [] = false
has_compile (arg ∷ rest) = text_eq arg (codes "-c") || has_compile rest

-- A filtered prefix leaves its kept arguments behind, and the loop goes on with the rest.
pub parse_loop-Filters :
    {args out : List Text}
    → Filters args out
    → (rest kept : List Text) (can : Bool)
    → parse_loop (args ++ rest) false kept can
      ≡ parse_loop rest false (kept ++ out) (can || has_compile out)
unfolding parse_loop has_compile
parse_loop-Filters done rest ks can = rw (append-nil, or-false)
parse_loop-Filters (kept {arg} {out = out} p f) rest ks can =
    rw (IsPlain-verdict arg p, parse_loop)
      (parse_loop-Filters f rest (ks ++ (arg ∷ [])) (can || text_eq arg (codes "-c"))
        ∙ rw (append_assoc, or_assoc))
parse_loop-Filters (alone {arg} p f) rest ks can =
    rw (IsAlone-verdict arg p, parse_loop) (parse_loop-Filters f rest ks can)
parse_loop-Filters (pair {arg} p f) rest ks can =
    rw (IsPair-verdict arg p, parse_loop) (parse_loop-Filters f rest ks can)

pub Filters-IsPlain : {args out : List Text} → Filters args out → All IsPlain out
Filters-IsPlain done = tt
Filters-IsPlain (kept p f) = (p, Filters-IsPlain f)
Filters-IsPlain (alone p f) = Filters-IsPlain f
Filters-IsPlain (pair p f) = Filters-IsPlain f

pub IsPlain-Filters : (args : List Text) → All IsPlain args → Filters args args
IsPlain-Filters [] h = done
IsPlain-Filters (arg ∷ rest) h = kept h.0 (IsPlain-Filters rest h.1)

pub Filters-Sublistᴰ : {args out : List Text} → Filters args out → Sublistᴰ out args
Filters-Sublistᴰ done = Sublistᴰ.slnil
Filters-Sublistᴰ (kept p f) = Sublistᴰ.cons-cons refl (Filters-Sublistᴰ f)
Filters-Sublistᴰ (alone p f) = Sublistᴰ.cons (Filters-Sublistᴰ f)
Filters-Sublistᴰ (pair p f) = Sublistᴰ.cons (Sublistᴰ.cons (Filters-Sublistᴰ f))

pub Filters-append :
    {xs ys out more : List Text}
    → Filters xs out
    → Filters ys more
    → Filters (xs ++ ys) (out ++ more)
Filters-append done g = g
Filters-append (kept p f) g = kept p (Filters-append f g)
Filters-append (alone p f) g = alone p (Filters-append f g)
Filters-append (pair p f) g = pair p (Filters-append f g)

pub has_compile-append :
    (xs ys : List Text) → has_compile (xs ++ ys) ≡ (has_compile xs || has_compile ys)
unfolding has_compile
has_compile-append [] ys = refl
has_compile-append (x ∷ xs) ys = ground (arith, has_compile-append xs ys)
