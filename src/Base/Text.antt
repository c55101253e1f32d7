-- ===== src/Base/Text.antt =====
-- std::string and std::string_view as lists of bytes, with the members that the program calls.
use Prim.Native.Nat.{ℕ}
use Prim.Native.Char.{code}
use Prim.Native.String.{String}
use mathlib.Core.Path.{◌≡◌, refl}
use mathlib.Core.Logic.{◌↔◌, inl, inr}
use mathlib.Core.Bool.{Bool, true, false, ◌&&◌, ◌||◌, false≢true}
use mathlib.Core.List.{List, [], ◌∷◌, ◌++◌}
use native.Mathlib.Omega.{arith}
use distplusplus.Base.Tests.{◌==◌, Bool-cases}
use distplusplus.Base.Lists.{All}

abbrev pub Text : Type 0
Text = List ℕ

-- The bytes of an ASCII literal.
abbrev pub codes : String → Text
codes String.[] = []
codes (String.◌∷◌ c s) = code c ∷ codes s

unfoldable pub text_eq : Text → Text → Bool
text_eq [] [] = true
text_eq [] (_ ∷ _) = false
text_eq (_ ∷ _) [] = false
text_eq (a ∷ s) (b ∷ t) = a == b && text_eq s t

unfoldable pub is_empty : Text → Bool
is_empty [] = true
is_empty (_ ∷ _) = false

unfoldable pub starts_with : Text → Text → Bool
starts_with s [] = true
starts_with [] (_ ∷ _) = false
starts_with (a ∷ s) (b ∷ t) = a == b && starts_with s t

-- `find(c) != npos`.
unfoldable pub has_char : Text → ℕ → Bool
has_char [] c = false
has_char (a ∷ s) c = a == c || has_char s c

-- `find(t) != npos`.
unfoldable pub has_text : Text → Text → Bool
unfolding starts_with
has_text [] t = starts_with [] t
has_text (a ∷ s) t = starts_with (a ∷ s) t || has_text s t

-- `std::ranges::find(table, s) != table.end()`, and `any_of` over `==`.
unfoldable pub is_one_of : Text → List Text → Bool
unfolding text_eq
is_one_of s [] = false
is_one_of s (t ∷ ts) = text_eq s t || is_one_of s ts

-- `any_of` over `starts_with`.
unfoldable pub starts_with_any : Text → List Text → Bool
unfolding starts_with
starts_with_any s [] = false
starts_with_any s (t ∷ ts) = starts_with s t || starts_with_any s ts

pub text_eq→≡ : (s t : Text) → text_eq s t ≡ true → s ≡ t
unfolding text_eq
text_eq→≡ [] [] h = refl
text_eq→≡ [] (_ ∷ _) h = cc
text_eq→≡ (_ ∷ _) [] h = cc
text_eq→≡ (a ∷ s) (b ∷ t) h = ground (arith, text_eq→≡ s t)

pub text_eq_refl : (s : Text) → text_eq s s ≡ true
unfolding text_eq
text_eq_refl [] = refl
text_eq_refl (a ∷ s) = ground (arith, text_eq_refl s)

pub text_eq_iff : (s t : Text) → (text_eq s t ≡ true) ↔ (s ≡ t)
text_eq_iff s t = (text_eq→≡ s t, λ e. rw e (text_eq_refl t))

pub starts_with_nil : (s : Text) → starts_with s [] ≡ true
unfolding starts_with
starts_with_nil [] = refl
starts_with_nil (_ ∷ _) = refl

pub starts_with_refl : (s : Text) → starts_with s s ≡ true
unfolding starts_with
starts_with_refl [] = refl
starts_with_refl (a ∷ s) = ground (arith, starts_with_refl s)

pub starts_with-append : (s t : Text) → starts_with (s ++ t) s ≡ true
unfolding starts_with
starts_with-append [] [] = refl
starts_with-append [] (_ ∷ _) = refl
starts_with-append (a ∷ s) t = ground (arith, starts_with-append s t)

-- `std::getline` to the end of a stream: the pieces between the delimiters, without an empty last one.
pieces : ℕ → Text → Text → List Text
pieces d piece [] = elim piece [ [] ↦ [] | c ∷ s ↦ (c ∷ s) ∷ [] ]
pieces d piece (c ∷ s) = elim (c == d) [
  | true ↦ piece ∷ pieces d [] s
  | false ↦ pieces d (piece ++ (c ∷ [])) s
]

unfoldable pub get_lines : ℕ → Text → List Text
unfolding pieces
get_lines d s = pieces d [] s

-- `s.substr(s.find(c) + 1)`, for a character that is there.
unfoldable pub after_first : ℕ → Text → Text
after_first c [] = []
after_first c (a ∷ s) = elim (a == c) [ true ↦ s | false ↦ after_first c s ]

-- What holds of every entry of a table holds of a text that is found in it.
pub is_one_of-All {κ} :
    (P : Text → Type κ) (s : Text) (ts : List Text) → All P ts → is_one_of s ts ≡ true → P s
unfolding is_one_of
is_one_of-All P s [] h e = absurd (false≢true e)
is_one_of-All P s (t ∷ ts) h e = elim (Bool-cases (text_eq s t)) [
  | inl same ↦ rw (text_eq→≡ s t same) h.0
  | inr other ↦ is_one_of-All P s ts h.1 (rw other at e)
]

-- A test that every entry of a table passes.
unfoldable pub every : (Text → Bool) → List Text → Bool
every f [] = true
every f (t ∷ ts) = f t && every f ts

pub every-All : (f : Text → Bool) (ts : List Text) → every f ts ≡ true → All (λ t. f t ≡ true) ts
unfolding every
every-All f [] h = tt
every-All f (t ∷ ts) h = (ground arith, every-All f ts (ground arith))
