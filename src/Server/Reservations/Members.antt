-- ===== src/Server/Reservations/Members.antt =====
-- How many entries each operation adds or removes, and which uuids are left.
use distplusplus.Base.{
  ℕ, suc, ◌≤◌, ◌<◌, ◌+◌, ◌≡◌, refl, ap, Bool, true, false, ◌||◌, List, [], ◌∷◌, arith, length,
  if◌then◌else◌,
}
use distplusplus.Base.Text.{Text, text_eq, text_eq_iff}
use distplusplus.Server.Reservations.{Reservation, emplace, erase_uuid, erase_before}

pub length-emplace :
    (r : Reservation) (qs : List Reservation) → length (emplace r qs) ≡ suc (length qs)
unfolding emplace
length-emplace r [] = refl
length-emplace r (q ∷ qs) = ground (arith, length-emplace r qs)

pub length-erase_uuid-le : (u : Text) (qs : List Reservation) → length (erase_uuid u qs) ≤ length qs
unfolding erase_uuid
length-erase_uuid-le u [] = omega arith
length-erase_uuid-le u (q ∷ qs) = ground (arith, length-erase_uuid-le u qs)

pub length-erase_before-le :
    (t : ℕ) (qs : List Reservation) → length (erase_before t qs) ≤ length qs
unfolding erase_before
length-erase_before-le t [] = omega arith
length-erase_before-le t (q ∷ qs) = ground (arith, length-erase_before-le t qs)

-- Whether a uuid is reserved.
unfoldable pub is_reserved : Text → List Reservation → Bool
is_reserved u [] = false
is_reserved u (q ∷ qs) = text_eq q.uuid u || is_reserved u qs

pub is_reserved-emplace :
    (u : Text) (r : Reservation) (qs : List Reservation)
    → is_reserved u (emplace r qs) ≡ (text_eq r.uuid u || is_reserved u qs)
unfolding is_reserved emplace
is_reserved-emplace u r [] = refl
is_reserved-emplace u r (q ∷ qs) = ground (arith, is_reserved-emplace u r qs)

pub is_reserved-erase_uuid :
    (u v : Text) (qs : List Reservation)
    → is_reserved v (erase_uuid u qs) ≡ (if text_eq u v then false else is_reserved v qs)
unfolding is_reserved erase_uuid
is_reserved-erase_uuid u v [] = ground arith
is_reserved-erase_uuid u v (q ∷ qs) = ground (
  arith,
  is_reserved-erase_uuid u v qs,
  text_eq_iff q.uuid u,
  text_eq_iff q.uuid v,
  text_eq_iff u v,
)

pub is_reserved-erase_before :
    (t : ℕ) (v : Text) (qs : List Reservation)
    → is_reserved v qs ≡ false
    → is_reserved v (erase_before t qs) ≡ false
unfolding is_reserved erase_before
is_reserved-erase_before t v [] h = refl
is_reserved-erase_before t v (q ∷ qs) h = ground (arith, is_reserved-erase_before t v qs)

erase_uuid-absent :
    (u : Text) (qs : List Reservation) → is_reserved u qs ≡ false → erase_uuid u qs ≡ qs
unfolding is_reserved erase_uuid
erase_uuid-absent u [] h = refl
erase_uuid-absent u (q ∷ qs) h = ground (arith, erase_uuid-absent u qs)

-- No uuid is reserved twice.
abbrev pub IsUnique : List Reservation → Type 0
IsUnique [] = Unit {0}
IsUnique (q ∷ qs) = (is_reserved q.uuid qs ≡ false) × IsUnique qs

pub emplace-IsUnique :
    (r : Reservation) (qs : List Reservation)
    → is_reserved r.uuid qs ≡ false
    → IsUnique qs
    → IsUnique (emplace r qs)
unfolding emplace is_reserved
emplace-IsUnique r [] h n = (refl, tt)
emplace-IsUnique r (q ∷ qs) h n = ground (
  arith,
  emplace-IsUnique r qs,
  is_reserved-emplace q.uuid r qs,
  text_eq_iff q.uuid r.uuid,
  text_eq_iff r.uuid q.uuid,
)

pub erase_uuid-IsUnique :
    (u : Text) (qs : List Reservation) → IsUnique qs → IsUnique (erase_uuid u qs)
unfolding erase_uuid
erase_uuid-IsUnique u [] n = tt
erase_uuid-IsUnique u (q ∷ qs) n =
    ground (arith, erase_uuid-IsUnique u qs n.1, is_reserved-erase_uuid u q.uuid qs)

pub erase_before-IsUnique :
    (t : ℕ) (qs : List Reservation) → IsUnique qs → IsUnique (erase_before t qs)
unfolding erase_before
erase_before-IsUnique t [] n = tt
erase_before-IsUnique t (q ∷ qs) n = ground (arith, erase_before-IsUnique t qs n.1)

-- Where uuids are unique, a reserved one goes with one entry.
pub length-erase_uuid :
    (u : Text) (qs : List Reservation)
    → IsUnique qs
    → length (erase_uuid u qs) + (if is_reserved u qs then 1 else 0) ≡ length qs
unfolding erase_uuid is_reserved
length-erase_uuid u [] n = refl
length-erase_uuid u (q ∷ qs) n =
    ground (arith, length-erase_uuid u qs n.1, erase_uuid-absent u qs, text_eq_iff q.uuid u)

-- An entry goes only if its uuid was reserved.
pub length-erase_uuid-lt :
    (u : Text) (qs : List Reservation)
    → is_reserved u qs ≡ true
    → length (erase_uuid u qs) < length qs
unfolding erase_uuid is_reserved
length-erase_uuid-lt u [] h = cc
length-erase_uuid-lt u (q ∷ qs) h =
    ground (arith, length-erase_uuid-lt u qs, length-erase_uuid-le u qs)

pub length-erase_uuid_absent :
    (u : Text) (qs : List Reservation)
    → is_reserved u qs ≡ false
    → length (erase_uuid u qs) ≡ length qs
length-erase_uuid_absent u qs h = ap length (erase_uuid-absent u qs h)
