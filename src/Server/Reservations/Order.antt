-- ===== src/Server/Reservations/Order.antt =====
-- The order by time, and what the reaper takes from an ordered multiset.
use distplusplus.Base.{ℕ, ◌≤◌, ◌≡◌, refl, List, [], ◌∷◌, arith, ltb, All, if◌then◌else◌}
use distplusplus.Base.Text.{Text}
use distplusplus.Server.Reservations.{Reservation, emplace, erase_uuid, erase_before}

-- No entry is earlier than the bound.
abbrev pub NotBefore : ℕ → List Reservation → Type 0
NotBefore t = All (λ r. t ≤ r.time)

abbrev pub IsOrdered : List Reservation → Type 0
IsOrdered [] = Unit {0}
IsOrdered (q ∷ qs) = NotBefore q.time qs × IsOrdered qs

pub NotBefore-mono : (s t : ℕ) (qs : List Reservation) → s ≤ t → NotBefore t qs → NotBefore s qs
NotBefore-mono s t [] h n = tt
NotBefore-mono s t (q ∷ qs) h n = (omega arith, NotBefore-mono s t qs h n.1)

NotBefore-emplace :
    (t : ℕ) (r : Reservation) (qs : List Reservation)
    → t ≤ r.time
    → NotBefore t qs
    → NotBefore t (emplace r qs)
unfolding emplace
NotBefore-emplace t r [] h n = (h, tt)
NotBefore-emplace t r (q ∷ qs) h n = ground (arith, NotBefore-emplace t r qs h n.1)

pub emplace-IsOrdered :
    (r : Reservation) (qs : List Reservation) → IsOrdered qs → IsOrdered (emplace r qs)
unfolding emplace
emplace-IsOrdered r [] o = (tt, tt)
emplace-IsOrdered r (q ∷ qs) o = ground (
  arith,
  emplace-IsOrdered r qs o.1,
  NotBefore-emplace q.time r qs,
  NotBefore-mono r.time q.time qs,
)

NotBefore-erase_uuid :
    (t : ℕ) (u : Text) (qs : List Reservation) → NotBefore t qs → NotBefore t (erase_uuid u qs)
unfolding erase_uuid
NotBefore-erase_uuid t u [] n = tt
NotBefore-erase_uuid t u (q ∷ qs) n = ground (arith, NotBefore-erase_uuid t u qs n.1)

pub erase_uuid-IsOrdered :
    (u : Text) (qs : List Reservation) → IsOrdered qs → IsOrdered (erase_uuid u qs)
unfolding erase_uuid
erase_uuid-IsOrdered u [] o = tt
erase_uuid-IsOrdered u (q ∷ qs) o =
    ground (arith, erase_uuid-IsOrdered u qs o.1, NotBefore-erase_uuid q.time u qs o.0)

pub erase_before-IsOrdered :
    (t : ℕ) (qs : List Reservation) → IsOrdered qs → IsOrdered (erase_before t qs)
unfolding erase_before
erase_before-IsOrdered t [] o = tt
erase_before-IsOrdered t (q ∷ qs) o = ground (arith, erase_before-IsOrdered t qs o.1)

-- The entries that are not earlier than `t`, wherever they stand.
unfoldable pub younger : ℕ → List Reservation → List Reservation
younger t [] = []
younger t (q ∷ qs) = let rest = younger t qs in if ltb q.time t then rest else q ∷ rest

younger-all : (s t : ℕ) (qs : List Reservation) → t ≤ s → NotBefore s qs → younger t qs ≡ qs
unfolding younger
younger-all s t [] h n = refl
younger-all s t (q ∷ qs) h n = ground (arith, younger-all s t qs h n.1)

-- In an ordered multiset the reaper takes exactly the entries earlier than its stamp.
pub erase_before-younger :
    (t : ℕ) (qs : List Reservation) → IsOrdered qs → erase_before t qs ≡ younger t qs
unfolding erase_before younger
erase_before-younger t [] o = refl
erase_before-younger t (q ∷ qs) o =
    ground (arith, erase_before-younger t qs o.1, younger-all q.time t qs)

-- What the reaper leaves has the same young entries.
pub younger-erase_before :
    (c t : ℕ) (qs : List Reservation) → t ≤ c → younger c (erase_before t qs) ≡ younger c qs
unfolding younger erase_before
younger-erase_before c t [] h = refl
younger-erase_before c t (q ∷ qs) h = ground (arith, younger-erase_before c t qs h)
