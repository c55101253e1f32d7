-- ===== src/Base/Numerals/Digits.antt =====
-- Reading what `to_text` has written.
use Prim.Native.Nat.{ℕ, zero, suc, ◌+◌, ◌-◌, ◌*◌, ◌/◌, ◌%◌, ◌^◌, ◌<◌}
use mathlib.Core.Path.{◌≡◌, refl, ap, ◌∙◌}
use mathlib.Core.Logic.{inl, inr}
use mathlib.Core.Bool.{true, false}
use mathlib.Core.List.{[], ◌∷◌, ◌++◌}
use native.Mathlib.Omega.{arith}
use distplusplus.Base.Tests.{ltb, Bool-cases, ltb→lt}
use distplusplus.Base.Lists.{All}
use distplusplus.Base.Text.{Text}
use distplusplus.Base.Words.{to_text_fuel, to_text}
use distplusplus.Base.Numerals.{is_space, is_digit, skip_spaces, digits, signed, strtoull}

-- A text of digits only.
abbrev IsDigits : Text → Type 0
IsDigits = All (λ c. is_digit c ≡ true)

digits-append : (s t : Text) (n : ℕ) → IsDigits s → digits n (s ++ t) ≡ digits (digits n s) t
unfolding digits
digits-append [] t n h = refl
digits-append (c ∷ s) t n h = rw (h.0, digits) (digits-append s t (n * 10 + (c - b'0')) h.1)

IsDigits-append : (s : Text) (c : ℕ) → IsDigits s → is_digit c ≡ true → IsDigits (s ++ (c ∷ []))
IsDigits-append [] c h k = (k, tt)
IsDigits-append (d ∷ s) c h k = (h.0, IsDigits-append s c h.1 k)

is_digit_of : (d : ℕ) → d < 10 → is_digit (d + b'0') ≡ true
unfolding is_digit
is_digit_of d h = ground arith

to_text_fuel-IsDigits : (f n : ℕ) → IsDigits (to_text_fuel f n)
unfolding to_text_fuel
to_text_fuel-IsDigits zero n = tt
to_text_fuel-IsDigits (suc f) n = elim (Bool-cases (ltb n 10)) [
  | inl e ↦ rw e (is_digit_of n (ltb→lt n 10 e), tt)
  | inr e ↦ rw e (
      IsDigits-append (to_text_fuel f (n / 10)) (n % 10 + b'0') (to_text_fuel-IsDigits f (n / 10))
        (is_digit_of (n % 10) (omega arith)))
]

digits_one : (m d : ℕ) → d < 10 → digits m ((d + b'0') ∷ []) ≡ m * 10 + d
unfolding digits
digits_one m d h = rw (is_digit_of d h, digits) (omega arith)

digits-to_text_fuel : (f n : ℕ) → n < 10 ^ f → digits 0 (to_text_fuel f n) ≡ n
unfolding to_text_fuel digits
digits-to_text_fuel zero n h = omega arith
digits-to_text_fuel (suc f) n h = elim (Bool-cases (ltb n 10)) [
  | inl e ↦ rw e (digits_one 0 n (ltb→lt n 10 e) ∙ omega arith)
  | inr e ↦
      let small : n / 10 < 10 ^ f = omega arith in
      rw e (
        digits-append (to_text_fuel f (n / 10)) ((n % 10 + b'0') ∷ []) 0
          (to_text_fuel-IsDigits f (n / 10))
        ∙ digits_one (digits 0 (to_text_fuel f (n / 10))) (n % 10) (omega arith)
        ∙ (let back = digits-to_text_fuel f (n / 10) small in omega arith))
]

skip_digits : (s : Text) → IsDigits s → skip_spaces s ≡ s
unfolding skip_spaces is_space is_digit
skip_digits [] h = refl
skip_digits (c ∷ s) h = ground (arith, h.0)

signed-digits : (s : Text) → IsDigits s → signed s ≡ (false, digits 0 s)
unfolding signed digits is_digit
signed-digits [] h = refl
signed-digits (c ∷ s) h = ground (arith, h.0)

-- If `n` is below `2 ^ 64`, `strtoull` reads `n`, without an error, from what `to_text` writes.
pub strtoull-to_text : (n : ℕ) → n < 2 ^ 64 → strtoull (to_text n) ≡ (n, 0)
unfolding strtoull to_text
strtoull-to_text n h =
    let written = to_text_fuel-IsDigits 20 n in
    let e : signed (skip_spaces (to_text_fuel 20 n)) ≡ (false, n) =
      ap signed (skip_digits (to_text_fuel 20 n) written)
      ∙ signed-digits (to_text_fuel 20 n) written
      ∙ ap (λ (m : ℕ). (false, m)) (digits-to_text_fuel 20 n (omega (arith, h))) in
    rw e (ground (arith, h))
