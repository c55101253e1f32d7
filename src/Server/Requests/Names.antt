-- ===== src/Server/Requests/Names.antt =====
-- What the checks of names let through.
use distplusplus.Base.{true, false, ◌≡◌, ◌↔◌, ap, sym, ◌∙◌, arith, length, inl, inr}
use mathlib.Core.Bool.{false≢true}
use distplusplus.Base.Text.{Text, text_eq→≡, text_eq_refl, has_char}
use distplusplus.Base.FilePath.{filename, filename_cases}
use distplusplus.Server.Requests.{CompileRequest, is_basename, sanitize_file, sanitize_request}

-- A name is a basename exactly when it has no slash.
pub is_basename_iff : (name : Text) → (is_basename name ≡ true) ↔ (has_char name b'/' ≡ false)
unfolding is_basename
is_basename_iff name = elim (filename_cases name) [
  | inl (e, f) ↦ (λ _. f, λ _. rw e (text_eq_refl name))
  | inr (f, l) ↦ (
    λ h. absurd (omega (arith, ap length (text_eq→≡ (filename name) name h))),
    λ h. absurd (false≢true (sym h ∙ f)),
  )
]

-- If `sanitize_request` passes a request, neither the compiler's name nor the file's has a slash.
pub sanitize_request_sound :
    (request : CompileRequest)
    → sanitize_request request ≡ true
    → (has_char request.compiler b'/' ≡ false) × (has_char request.input_file.name b'/' ≡ false)
unfolding sanitize_request sanitize_file
sanitize_request_sound request h =
    ground
      (arith, (is_basename_iff request.compiler).0, (is_basename_iff request.input_file.name).0)
