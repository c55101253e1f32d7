-- ===== src/Common/Tempfile/Cleaner.antt =====
-- src/common/tempfile.cpp: what the terminate handler leaves.
use distplusplus.Base.{
  ℕ, ◌≡◌, ◌≢◌, ◌∙◌, ◌↔◌, refl, true, false, List, [], ◌∷◌, Option, none, some, arith, Bool-cases,
  Option-cases, inl, inr, if◌then◌else◌,
}
use distplusplus.Base.Text.{Text, text_eq, is_one_of, text_eq→≡, text_eq_refl, text_eq_iff}
use distplusplus.Base.FileSystem.{Node, Files, lookup, del, remove, remove_node}
use distplusplus.Common.Tempfile.{Temps, clean, files_after, tempfile_cleaner}

lookup-del :
    (p q : Text) (fs : Files) → lookup q (del p fs) ≡ (if text_eq p q then none else lookup q fs)
unfolding lookup del
lookup-del p q [] = ground arith
lookup-del p q ((k, v) ∷ fs) =
    ground (arith, lookup-del p q fs, text_eq_iff k p, text_eq_iff k q, text_eq_iff p q)

module _ (denied : Text → Option ℕ) where
  -- A removal makes no file.
  step_back :
      (p q : Text) (fs : Files) (v : Text)
      → lookup q (files_after denied fs (remove denied p fs)) ≡ some (Node.file v)
      → lookup q fs ≡ some (Node.file v)
  unfolding files_after remove remove_node
  step_back p q fs v h = elim (Option-cases (denied p)) [
    | inr (errno, e) ↦ rw (e, remove, files_after) at h
    | inl e ↦ ground (arith, e, lookup-del p q fs)
  ]

  step_takes :
      (p : Text) (fs : Files) (v : Text)
      → denied p ≡ none
      → lookup p (files_after denied fs (remove denied p fs)) ≢ some (Node.file v)
  unfolding files_after remove remove_node
  step_takes p fs v e h = ground (arith, e, lookup-del p p fs, text_eq_refl p)

  step_other :
      (p q : Text) (fs : Files)
      → text_eq q p ≡ false
      → lookup q (files_after denied fs (remove denied p fs)) ≡ lookup q fs
  unfolding files_after remove remove_node
  step_other p q fs n = elim (Option-cases (denied p)) [
    | inr (errno, e) ↦ rw (e, remove, files_after) refl
    | inl e ↦ ground (arith, e, lookup-del p q fs, text_eq_iff p q, text_eq_iff q p)
  ]

  clean_back :
      (ps : List Text) (q : Text) (fs : Files) (v : Text)
      → lookup q (clean denied ps fs) ≡ some (Node.file v)
      → lookup q fs ≡ some (Node.file v)
  unfolding clean
  clean_back [] q fs v h = h
  clean_back (p ∷ ps) q fs v h =
      step_back p q fs v (clean_back ps q (files_after denied fs (remove denied p fs)) v h)

  clean_takes :
      (ps : List Text) (p : Text) (fs : Files) (v : Text)
      → is_one_of p ps ≡ true
      → denied p ≡ none
      → lookup p (clean denied ps fs) ≢ some (Node.file v)
  unfolding clean is_one_of
  clean_takes [] p fs v h a e = cc
  clean_takes (q ∷ ps) p fs v h a e = elim (Bool-cases (text_eq p q)) [
    | inl same ↦ step_takes q fs v (rw (text_eq→≡ p q same) at a) (
        rw (text_eq→≡ p q same) at
          (clean_back ps p (files_after denied fs (remove denied q fs)) v e))
    | inr other ↦
        clean_takes ps p (files_after denied fs (remove denied q fs)) v (rw other at h) a e
  ]

  clean_other :
      (ps : List Text) (p : Text) (fs : Files)
      → is_one_of p ps ≡ false
      → lookup p (clean denied ps fs) ≡ lookup p fs
  unfolding clean is_one_of
  clean_other [] p fs h = refl
  clean_other (q ∷ ps) p fs h =
      clean_other ps p (files_after denied fs (remove denied q fs)) (ground (arith, h))
      ∙ step_other q p fs (ground (arith, h))

  -- After the terminate handler a path whose removal is not refused is a file exactly if it was that
  -- file before and is not registered.
  pub tempfile_cleaner_leaves :
      (s : Temps) (p v : Text)
      → denied p ≡ none
      → (lookup p (tempfile_cleaner denied s).files ≡ some (Node.file v))
        ↔ ((is_one_of p s.registered ≡ false) × (lookup p s.files ≡ some (Node.file v)))
  unfolding tempfile_cleaner
  tempfile_cleaner_leaves s p v a = (
    λ h. elim (Bool-cases (is_one_of p s.registered)) [
      | inl r ↦ absurd (clean_takes s.registered p s.files v r a h)
      | inr r ↦ (r, clean_back s.registered p s.files v h)
    ],
    λ (r, h). clean_other s.registered p s.files r ∙ h,
  )
