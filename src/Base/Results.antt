-- ===== src/Base/Results.antt =====
-- The outcome of code that throws: what was thrown, or a value.
use mathlib.Core.Path.{◌≡◌, refl}
use mathlib.Core.Bool.{Bool, true, false}
use mathlib.Core.Option.{Option, none, some}
use mathlib.Core.Logic.{◌⊎◌, inl, inr}

pub data Result {ℓ κ} (Thrown : Type κ) (Value : Type ℓ) : Type (ℓ ⊔ κ) where
  err : Thrown → Result Thrown Value
  ok : Value → Result Thrown Value

module _ {ℓ κ} {Thrown : Type κ} {Value : Type ℓ} where
  pub Result-cases :
      (r : Result Thrown Value) → ((e : Thrown) × (r ≡ err e)) ⊎ ((v : Value) × (r ≡ ok v))
  Result-cases (err e) = inl (e, refl)
  Result-cases (ok v) = inr (v, refl)

  -- The next statement runs if nothing was thrown.
  infixl 5 ◌>>=◌
  abbrev pub ◌>>=◌ {ℓ₂} :
      {Next : Type ℓ₂} → Result Thrown Value → (Value → Result Thrown Next) → Result Thrown Next
  err thrown >>= next = err thrown
  ok value >>= next = next value

  pub >>=-eq-ok {ℓ₂} :
      {Next : Type ℓ₂} (m : Result Thrown Value) (f : Value → Result Thrown Next) {n : Next}
      → (m >>= f) ≡ ok n
      → (v : Value) × (m ≡ ok v) × (f v ≡ ok n)
  >>=-eq-ok (err e) f h = cc
  >>=-eq-ok (ok v) f h = (v, refl, h)

-- The answer to a test that may throw.
pub check_cases : (o : Option Bool) → (o ≡ some true) ⊎ ((o ≡ some false) ⊎ (o ≡ none))
check_cases none = inr (inr refl)
check_cases (some true) = inl refl
check_cases (some false) = inr (inl refl)
