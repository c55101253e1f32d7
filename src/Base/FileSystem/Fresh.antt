-- ===== src/Base/FileSystem/Fresh.antt =====
-- A directory that is new among the files, and a file that is made in it.
use mathlib.Core.Path.{◌≡◌, refl, ap, ◌∙◌}
use mathlib.Core.Logic.{inl, inr}
use mathlib.Core.Bool.{true, false}
use mathlib.Core.Option.{Option, none, some}
use mathlib.Core.List.{[], ◌∷◌, ◌++◌}
use Prim.Native.Nat.{ℕ}
use native.Mathlib.Omega.{arith}
use distplusplus.Base.Tests.{Bool-cases}
use distplusplus.Base.Results.{ok, err}
use distplusplus.Base.Text.{Text, text_eq, text_eq→≡, text_eq_refl, text_eq_iff, has_char}
use distplusplus.Base.FilePath.{parent_path, parent_path-child}
use distplusplus.Base.FileSystem.{
  Node, Files, lookup, del, put, has_child, remove, remove_node, enotempty, is_fresh,
}

pub text_eq-longer : (d : Text) (c : ℕ) (n : Text) → text_eq d (d ++ (c ∷ n)) ≡ false
unfolding text_eq
text_eq-longer [] c n = refl
text_eq-longer (a ∷ d) c n = ground (arith, text_eq-longer d c n)

pub text_eq-shorter : (d : Text) (c : ℕ) (n : Text) → text_eq (d ++ (c ∷ n)) d ≡ false
unfolding text_eq
text_eq-shorter [] c n = refl
text_eq-shorter (a ∷ d) c n = ground (arith, text_eq-shorter d c n)

text_eq-swap : (s t : Text) → text_eq t s ≡ false → text_eq s t ≡ false
text_eq-swap s t h = ground (arith, text_eq_iff s t, text_eq_iff t s)

pub del-fresh : (d : Text) (fs : Files) → is_fresh d fs ≡ true → del d fs ≡ fs
unfolding del is_fresh
del-fresh d [] h = refl
del-fresh d ((k, v) ∷ fs) h = ground (arith, del-fresh d fs)

pub has_child-fresh : (d : Text) (fs : Files) → is_fresh d fs ≡ true → has_child d fs ≡ false
unfolding has_child is_fresh
has_child-fresh d [] h = refl
has_child-fresh d ((k, v) ∷ fs) h = ground (arith, has_child-fresh d fs)

lookup-fresh :
    (d p : Text) (v : Node) (fs : Files)
    → is_fresh d fs ≡ true
    → lookup p fs ≡ some v
    → (text_eq p d ≡ false) × (text_eq (parent_path p) d ≡ false)
unfolding lookup is_fresh
lookup-fresh d p v [] h e = cc
lookup-fresh d p v ((k, w) ∷ fs) h e = elim (Bool-cases (text_eq k p)) [
  | inl same ↦ rw (← text_eq→≡ k p same) (ground (arith, h))
  | inr other ↦ lookup-fresh d p v fs (ground (arith, h)) (rw other at e)
]

module _ (d n : Text) (plain : has_char n b'/' ≡ false) where
  -- An entry that is not in `d` is not its child `n`.
  not_child : (k : Text) → text_eq (parent_path k) d ≡ false → text_eq k (d ++ (b'/' ∷ n)) ≡ false
  not_child k h = elim (Bool-cases (text_eq k (d ++ (b'/' ∷ n)))) [
    | inr e ↦ e
    | inl e ↦
        let same : parent_path k ≡ d =
          ap parent_path (text_eq→≡ k (d ++ (b'/' ∷ n)) e) ∙ parent_path-child d n plain in
        cc (rw same at h, text_eq_refl d)
  ]

  pub del-child : (fs : Files) → is_fresh d fs ≡ true → del (d ++ (b'/' ∷ n)) fs ≡ fs
  unfolding del is_fresh
  del-child [] h = refl
  del-child ((k, v) ∷ fs) h = ground (arith, del-child fs, not_child k)

  -- The files once `d` is made and its child is written.
  abbrev pub made : Node → Files → Files
  made v fs = (d ++ (b'/' ∷ n), v) ∷ (d, Node.directory) ∷ fs

  -- What was there is there still.
  pub lookup-made :
      (p : Text) (v w : Node) (fs : Files)
      → is_fresh d fs ≡ true
      → lookup p fs ≡ some v
      → lookup p (made w fs) ≡ some v
  unfolding lookup
  lookup-made p v w fs h e =
      let (away, outside) = lookup-fresh d p v fs h e in
      rw (text_eq-swap _ p (not_child p outside), text_eq-swap d p away) e

  pub put-made :
      (v : Node) (fs : Files)
      → is_fresh d fs ≡ true
      → put (d ++ (b'/' ∷ n)) v (put d Node.directory fs) ≡ made v fs
  unfolding put del
  put-made v fs h = rw (del-fresh d fs h, del, text_eq-longer d b'/' n, del-child fs h) refl

  pub put-made_again :
      (v w : Node) (fs : Files)
      → is_fresh d fs ≡ true
      → put (d ++ (b'/' ∷ n)) w (made v fs) ≡ made w fs
  unfolding put del
  put-made_again v w fs h =
      rw (text_eq_refl (d ++ (b'/' ∷ n)), del, text_eq-longer d b'/' n, del-child fs h) refl

  module _ (denied : Text → Option ℕ) (allowed : (p : Text) → denied p ≡ none) where
    pub remove-made :
        (t : Text) (fs : Files)
        → is_fresh d fs ≡ true
        → remove denied (d ++ (b'/' ∷ n)) (made (Node.file t) fs)
          ≡ ok (true, (d, Node.directory) ∷ fs)
    unfolding remove remove_node lookup del
    remove-made t fs h = ground (
      arith,
      allowed (d ++ (b'/' ∷ n)),
      text_eq_refl (d ++ (b'/' ∷ n)),
      text_eq-longer d b'/' n,
      del-child fs h,
    )

    pub remove-directory :
        (fs : Files)
        → is_fresh d fs ≡ true
        → remove denied d ((d, Node.directory) ∷ fs) ≡ ok (true, fs)
    unfolding remove remove_node lookup del has_child
    remove-directory fs h =
        ground (arith, allowed d, text_eq_refl d, has_child-fresh d fs h, del-fresh d fs h)

-- With a second child `m` the directory stays.
module _ (d n : Text) (plain : has_char n b'/' ≡ false) (denied : Text → Option ℕ)
    (allowed : (p : Text) → denied p ≡ none) (m : Text) (plain' : has_char m b'/' ≡ false)
    (other : text_eq (d ++ (b'/' ∷ m)) (d ++ (b'/' ∷ n)) ≡ false) where
  pub put-beside :
      (v w : Node) (fs : Files)
      → is_fresh d fs ≡ true
      → put (d ++ (b'/' ∷ m)) w (made d n plain v fs) ≡ (d ++ (b'/' ∷ m), w) ∷ made d n plain v fs
  unfolding put del
  put-beside v w fs h =
      rw
        (
          text_eq-swap (d ++ (b'/' ∷ n)) (d ++ (b'/' ∷ m)) other,
          del,
          text_eq-longer d b'/' m,
          del-child d m plain' fs h,
        )
        refl

  pub remove-beside :
      (t : Text) (w : Node) (fs : Files)
      → is_fresh d fs ≡ true
      → remove denied (d ++ (b'/' ∷ n)) ((d ++ (b'/' ∷ m), w) ∷ made d n plain (Node.file t) fs)
        ≡ ok (true, (d ++ (b'/' ∷ m), w) ∷ (d, Node.directory) ∷ fs)
  unfolding remove remove_node lookup del
  remove-beside t w fs h = ground (
    arith,
    allowed (d ++ (b'/' ∷ n)),
    other,
    text_eq_refl (d ++ (b'/' ∷ n)),
    text_eq-longer d b'/' n,
    del-child d n plain fs h,
  )

  pub remove-crowded :
      (w : Node) (fs : Files)
      → remove denied d ((d ++ (b'/' ∷ m), w) ∷ (d, Node.directory) ∷ fs) ≡ err enotempty
  unfolding remove remove_node lookup has_child
  remove-crowded w fs =
      ground
        (arith, allowed d, text_eq-shorter d b'/' m, text_eq_refl d, parent_path-child d m plain')
