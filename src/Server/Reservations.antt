-- ===== src/Server/Reservations.antt =====
-- src/server/server.hpp, src/server/server.cpp: the multiset of reservations, ordered by the time
-- at which each was made, and the three ways in which the server changes it.
pub mod Order
pub mod Members
use distplusplus.Base.{ℕ, Bool, true, false, List, [], ◌∷◌, ltb, if◌then◌else◌}
use distplusplus.Base.Text.{Text, text_eq}

pub record Reservation : Type 0 where
  pub uuid : Text
  pub time : ℕ

-- `ReservationCompare`, at two reservations.
abbrev pub earlier : Reservation → Reservation → Bool
earlier a b = ltb a.time b.time

-- `reservations.emplace_hint(reservations.end(), …)`: behind every entry that is not later.
unfoldable pub emplace : Reservation → List Reservation → List Reservation
emplace r [] = r ∷ []
emplace r (q ∷ qs) = if earlier r q then r ∷ q ∷ qs else q ∷ emplace r qs

-- `std::erase_if(reservations, …)`: every entry with this uuid goes.
unfoldable pub erase_uuid : Text → List Reservation → List Reservation
erase_uuid u [] = []
erase_uuid u (q ∷ qs) = let rest = erase_uuid u qs in if text_eq q.uuid u then rest else q ∷ rest

-- `reservations.erase(reservations.begin(), reservations.lower_bound(timestamp))`.
unfoldable pub erase_before : ℕ → List Reservation → List Reservation
erase_before t [] = []
erase_before t (q ∷ qs) = let rest = erase_before t qs in if ltb q.time t then rest else q ∷ qs
