-- ===== src/Client/Database/Tables.antt =====
-- The laws of the table, and when two keys are the same.
use distplusplus.Base.{
  ◌≡◌, ◌≢◌, refl, false, [], ◌∷◌, ◌++◌, none, some, arith, if◌then◌else◌, Bool-cases, inl, inr,
}
use distplusplus.Base.Text.{Text, text_eq, text_eq_iff, text_eq→≡}
use distplusplus.Client.Database.{Value, Table, get, put, del}

pub get-put :
    (key : Text) (value : Value) (other : Text) (t : Table)
    → get other (put key value t) ≡ (if text_eq key other then some value else get other t)
unfolding get put
get-put key value other [] = refl
get-put key value other ((k, v) ∷ t) = ground (
  arith,
  get-put key value other t,
  text_eq_iff k key,
  text_eq_iff k other,
  text_eq_iff key other,
)

pub get-del :
    (key other : Text) (t : Table)
    → get other (del key t) ≡ (if text_eq key other then none else get other t)
unfolding get del
get-del key other [] = ground arith
get-del key other ((k, v) ∷ t) =
    ground
      (arith, get-del key other t, text_eq_iff k key, text_eq_iff k other, text_eq_iff key other)

pub text_eq-false : (s t : Text) → s ≢ t → text_eq s t ≡ false
text_eq-false s t h = elim (Bool-cases (text_eq s t)) [
  | inl e ↦ absurd (h (text_eq→≡ s t e))
  | inr e ↦ e
]

pub text_eq-append : (s a b : Text) → text_eq (s ++ a) (s ++ b) ≡ text_eq a b
unfolding text_eq
text_eq-append [] a b = refl
text_eq-append (c ∷ s) a b = ground (arith, text_eq-append s a b)
