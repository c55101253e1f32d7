-- ===== src/Base/FilePath.antt =====
-- The decompositions of std::filesystem::path, over POSIX names.
use mathlib.Core.Bool.{true, false, ◌||◌, or-true}
use mathlib.Core.Option.{Option, none, some}
use mathlib.Core.List.{[], ◌∷◌, ◌++◌}
use mathlib.Core.Path.{◌≡◌, refl, sym, subst}
use mathlib.Core.Logic.{◌⊎◌, inl, inr}
use Prim.Native.Nat.{ℕ, ◌<◌, ◌≤◌}
use native.Mathlib.Omega.{arith}
use distplusplus.Base.Lists.{length}
use distplusplus.Base.Tests.{◌==◌, Bool-cases, Option-cases, if◌then◌else◌}
use distplusplus.Base.Text.{Text, codes, text_eq, has_char}

-- What follows the last slash.
after_slash : Text → Option Text
after_slash [] = none
after_slash (c ∷ s) = elim (after_slash s) [
  | some t ↦ some t
  | none ↦ if c == b'/' then some s else none
]

unfoldable pub filename : Text → Text
unfolding after_slash
filename p = elim (after_slash p) [ some t ↦ t | none ↦ p ]

-- The text before the last dot, and from it on.
split_dot : Text → Option (Text × Text)
split_dot [] = none
split_dot (c ∷ s) = elim (split_dot s) [
  | some (stem, extension) ↦ some (c ∷ stem, extension)
  | none ↦ if c == b'.' then some ([], c ∷ s) else none
]

-- A dot in front is part of the name.
parts_at : Text → Option (Text × Text) → Text × Text
parts_at name none = (name, [])
parts_at name (some ([], extension)) = (name, [])
parts_at name (some (c ∷ stem, extension)) = (c ∷ stem, extension)

unfoldable pub parts : Text → Text × Text
unfolding split_dot parts_at text_eq
parts name =
    if text_eq name (codes ".") || text_eq name (codes "..")
    then (name, [])
    else parts_at name (split_dot name)

unfoldable pub stem : Text → Text
unfolding parts filename
stem p = (parts (filename p)).0

unfoldable pub extension : Text → Text
unfolding parts filename
extension p = (parts (filename p)).1

-- A slash is found exactly where there is one, and what follows it is shorter.
after_slash-has_char :
    (s : Text)
    → ((after_slash s ≡ none) × (has_char s b'/' ≡ false))
      ⊎ ((t : Text) × (after_slash s ≡ some t) × (has_char s b'/' ≡ true) × (length t < length s))
unfolding after_slash has_char
after_slash-has_char [] = inl (refl, refl)
after_slash-has_char (c ∷ s) = elim (after_slash-has_char s) [
  | inl (e, f) ↦ elim (Bool-cases (c == b'/')) [
    | inl g ↦ inr (s, rw (e, g), rw g, omega arith)
    | inr g ↦ inl (rw (e, g), rw (g, f))
  ]
  | inr (t, e, f, l) ↦ inr (t, rw e, rw f (or-true _), omega arith)
]

pub filename_cases :
    (s : Text)
    → ((filename s ≡ s) × (has_char s b'/' ≡ false))
      ⊎ ((has_char s b'/' ≡ true) × (length (filename s) < length s))
unfolding filename
filename_cases s = elim (after_slash-has_char s) [
  | inl (e, f) ↦ inl (rw (e, filename), f)
  | inr (t, e, f, l) ↦ inr (f, rw (e, filename) l)
]

pub has_char-append : (s t : Text) (c : ℕ) → has_char (s ++ t) c ≡ (has_char s c || has_char t c)
unfolding has_char
has_char-append [] t c = refl
has_char-append (a ∷ s) t c = ground (arith, has_char-append s t c)

after_slash_last : (s t : Text) → after_slash s ≡ some t → has_char t b'/' ≡ false
unfolding after_slash has_char
after_slash_last [] t h = cc
after_slash_last (c ∷ s) t h = elim (after_slash-has_char s) [
  | inl (e, f) ↦ elim (Bool-cases (c == b'/')) [
    | inl g ↦ let same : s ≡ t = cc (rw (e, g) at h) in rw (sym same) f
    | inr g ↦ cc (rw (e, g) at h)
  ]
  | inr (u, e, f, l) ↦ let same : u ≡ t = cc (rw e at h) in rw (sym same) (after_slash_last s u e)
]

-- A file's name has no slash, and neither has its stem.
pub has_char-filename : (p : Text) → has_char (filename p) b'/' ≡ false
unfolding filename
has_char-filename p = elim (after_slash-has_char p) [
  | inl (e, f) ↦ rw (e, filename) f
  | inr (t, e, f, l) ↦ rw (e, filename) (after_slash_last p t e)
]

split_dot-append : (s a b : Text) → split_dot s ≡ some (a, b) → s ≡ a ++ b
unfolding split_dot
split_dot-append [] a b h = cc
split_dot-append (c ∷ s) a b h = elim (Option-cases (split_dot s)) [
  | inl e ↦ elim (Bool-cases (c == b'.')) [
    | inl g ↦ let same : some ([], c ∷ s) ≡ some (a, b) = rw (e, g) at h in cc
    | inr g ↦ cc (rw (e, g) at h)
  ]
  | inr ((u, v), e) ↦
      let same : some (c ∷ u, v) ≡ some (a, b) = rw e at h in
      let rest = split_dot-append s u v e in cc
]

has_char-parts_at :
    (name : Text) (o : Option (Text × Text))
    → ((a b : Text) → o ≡ some (a, b) → name ≡ a ++ b)
    → has_char name b'/' ≡ false
    → has_char (parts_at name o).0 b'/' ≡ false
unfolding parts_at
has_char-parts_at name none f h = h
has_char-parts_at name (some ([], e)) f h = h
has_char-parts_at name (some (c ∷ s, e)) f h =
    let k = has_char-append (c ∷ s) e b'/' in
    let same = f (c ∷ s) e refl in
    let joined : has_char ((c ∷ s) ++ e) b'/' ≡ false =
      subst (λ n. has_char n b'/' ≡ false) same h in
    ground (arith, k, joined)

has_char-parts : (name : Text) → has_char name b'/' ≡ false → has_char (parts name).0 b'/' ≡ false
unfolding parts
has_char-parts name h = elim (Bool-cases (text_eq name (codes ".") || text_eq name (codes ".."))) [
  | inl e ↦ rw (e, parts) h
  | inr e ↦
      rw (e, parts) (has_char-parts_at name (split_dot name) (λ a b. split_dot-append name a b) h)
]

pub has_char-stem : (p : Text) → has_char (stem p) b'/' ≡ false
unfolding stem
has_char-stem p = has_char-parts (filename p) (has_char-filename p)

before_slash : Text → Option Text
before_slash [] = none
before_slash (c ∷ s) = elim (before_slash s) [
  | some t ↦ some (c ∷ t)
  | none ↦ if c == b'/' then some [] else none
]

-- The text before the last slash: of a path in the root the model's parent is empty, and a second
-- slash in a row is not left out.
unfoldable pub parent_path : Text → Text
unfolding before_slash
parent_path p = elim (before_slash p) [ some t ↦ t | none ↦ [] ]

before_slash-none : (n : Text) → has_char n b'/' ≡ false → before_slash n ≡ none
unfolding before_slash has_char
before_slash-none [] h = refl
before_slash-none (c ∷ n) h = ground (arith, before_slash-none n)

before_slash-child :
    (d n : Text) → has_char n b'/' ≡ false → before_slash (d ++ (b'/' ∷ n)) ≡ some d
unfolding before_slash
before_slash-child [] n h = rw (before_slash-none n h, before_slash) refl
before_slash-child (c ∷ d) n h = rw (before_slash-child d n h) refl

pub parent_path-child : (d n : Text) → has_char n b'/' ≡ false → parent_path (d ++ (b'/' ∷ n)) ≡ d
unfolding parent_path
parent_path-child d n h = rw (before_slash-child d n h, parent_path) refl

before_slash-shorter : (p : Text) (t : Text) → before_slash p ≡ some t → length t ≤ length p
unfolding before_slash
before_slash-shorter [] t h = cc
before_slash-shorter (c ∷ p) t h = elim (Option-cases (before_slash p)) [
  | inl e ↦ elim (Bool-cases (c == b'/')) [
    | inl g ↦ let same : [] ≡ t = cc (rw (e, g) at h) in rw (← same) (omega arith)
    | inr g ↦ cc (rw (e, g) at h)
  ]
  | inr (u, e) ↦
      let same : c ∷ u ≡ t = cc (rw e at h) in
      rw (← same) (omega (arith, before_slash-shorter p u e))
]

pub length-parent_path : (p : Text) → length (parent_path p) ≤ length p
unfolding parent_path
length-parent_path p = elim (Option-cases (before_slash p)) [
  | inl e ↦ rw (e, parent_path) (omega arith)
  | inr (t, e) ↦ rw (e, parent_path) (before_slash-shorter p t e)
]
