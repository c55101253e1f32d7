-- ===== src/Server/Reserving.antt =====
-- `Reserve` as one call, and as the four pieces of a thread that nothing interrupts.
use distplusplus.Base.{
  ℕ, zero, suc, ◌+◌, ◌^◌, ◌≤◌, ◌<◌, ◌≡◌, refl, ◌∙◌, true, false, List, [], ◌∷◌, some, arith,
  get_elem?, set, ap,
}
use distplusplus.Base.Text.{Text, text_eq_refl}
use distplusplus.Base.Words.{add64_exact, to_text}
use distplusplus.Common.Status.{StatusCode}
use distplusplus.Server.Reservations.{emplace, erase_uuid}
use distplusplus.Server.Reservations.Members.{
  is_reserved, is_reserved-emplace, is_reserved-erase_uuid, length-erase_uuid-lt,
  length-erase_uuid_absent,
}
use distplusplus.Server.Jobs.{Server, compare_exchange, add_reservation, take_reservation, reserve}
use distplusplus.Server.Threads.{
  Phase, World, Event, check_from, load_from, exchange_from, insert_from, step, run, at,
}

pub get_elem?-set :
    (ps : List Phase) (i : ℕ) (p q : Phase)
    → get_elem? ps i ≡ some p
    → get_elem? (set ps i q) i ≡ some q
get_elem?-set [] i p q h = cc
get_elem?-set (r ∷ ps) zero p q h = refl
get_elem?-set (r ∷ ps) (suc i) p q h = get_elem?-set ps i p q h

pub set-set : (ps : List Phase) (i : ℕ) (p q : Phase) → set (set ps i p) i q ≡ set ps i q
set-set [] i p q = refl
set-set (r ∷ ps) zero p q = refl
set-set (r ∷ ps) (suc i) p q = ap (◌∷◌ r) (set-set ps i p q)

-- If a slot is free and `jobs_max` is below `2 ^ 64`, `reserve` counts one more job, inserts the
-- reservation, and replies with status OK, success and the uuid.
pub reserve_free :
    (uuid : Text) (now : ℕ) (s : Server)
    → s.jobs_max < 2 ^ 64
    → s.jobs_running < s.jobs_max
    → let (t, (status, answer)) = reserve uuid now s in
      (t.jobs_running ≡ s.jobs_running + 1)
      × (t.reservations ≡ emplace (record { uuid = uuid; time = now }) s.reservations)
      × (status.code ≡ StatusCode.ok)
      × (answer.success ≡ true)
      × (answer.uuid ≡ some uuid)
unfolding reserve
reserve_free uuid now s fits h = ground (arith, add64_exact s.jobs_running 1)

-- If no slot is free, `reserve` leaves the server as it is and replies RESOURCE_EXHAUSTED, with
-- `jobs_max` as the details and no success.
pub reserve_full :
    (uuid : Text) (now : ℕ) (s : Server)
    → s.jobs_max ≤ s.jobs_running
    → let (t, (status, answer)) = reserve uuid now s in
      (t ≡ s)
      × (status.code ≡ StatusCode.resource_exhausted)
      × (status.details ≡ to_text s.jobs_max)
      × (answer.success ≡ false)
unfolding reserve
reserve_full uuid now s h = ground arith

pub take-listed :
    (uuid : Text) (s : Server)
    → is_reserved uuid s.reservations ≡ true
    → take_reservation uuid s ≡ (record s { reservations = erase_uuid uuid s.reservations }, true)
unfolding take_reservation
take-listed uuid s h = ground (arith, length-erase_uuid-lt uuid s.reservations h)

pub take-absent :
    (uuid : Text) (s : Server)
    → is_reserved uuid s.reservations ≡ false
    → take_reservation uuid s ≡ (s, false)
unfolding take_reservation
take-absent uuid s h = ground (arith, length-erase_uuid_absent uuid s.reservations h)

pub is_reserved-reserve :
    (uuid : Text) (now : ℕ) (s : Server)
    → s.jobs_running < s.jobs_max
    → is_reserved uuid (reserve uuid now s).0.reservations ≡ true
unfolding reserve
is_reserved-reserve uuid now s h = ground (
  arith,
  is_reserved-emplace uuid (record { uuid = uuid; time = now }) s.reservations,
  text_eq_refl uuid,
)

-- If a slot is free, the uuid that `reserve` lists can be taken by a `Distribute`, and then not a
-- second time.
pub take-reserve :
    (uuid : Text) (now : ℕ) (s : Server)
    → s.jobs_running < s.jobs_max
    → let t = (reserve uuid now s).0 in
      ((take_reservation uuid t).1 ≡ true)
      × ((take_reservation uuid (take_reservation uuid t).0).1 ≡ false)
take-reserve uuid now s h =
    let t : Server = (reserve uuid now s).0 in
    let first = take-listed uuid t (is_reserved-reserve uuid now s h) in
    let gone : is_reserved uuid (erase_uuid uuid t.reservations) ≡ false =
      ground (arith, is_reserved-erase_uuid uuid uuid t.reservations, text_eq_refl uuid) in
    (
      rw first,
      rw first (
          ap (λ r. r.1)
            (take-absent uuid (record t { reservations = erase_uuid uuid t.reservations }) gone)),
    )

pub run-next :
    (w u : World) (e : Event) (es : List Event) → step w e ≡ some u → run w (e ∷ es) ≡ run u es
unfolding run
run-next w u e es h = rw (h, run)

-- If the thread is idle, a slot is free and `jobs_max` is below `2 ^ 64`, its four pieces in a row
-- count one more job, list the uuid with the time, change nothing else, and take the thread back to
-- idle, and `reserve` does the same to the server.
pub run-reserve :
    (w : World) (i : ℕ) (uuid : Text)
    → get_elem? w.threads i ≡ some Phase.idle
    → w.server.jobs_max < 2 ^ 64
    → w.server.jobs_running < w.server.jobs_max
    → let s : Server = record w.server {
      jobs_running = w.server.jobs_running + 1;
      reservations = emplace (record { uuid = uuid; time = w.clock }) w.server.reservations;
    } in
      (run w (Event.check i ∷ Event.load i ∷ Event.exchange i ∷ Event.insert i uuid ∷ [])
        ≡ some (at w i Phase.idle s))
      × ((reserve uuid w.clock w.server).0 ≡ s)
unfolding run step check_from load_from exchange_from insert_from reserve
run-reserve w i uuid g fits h = (
  run-next w w₁ (Event.check i) (Event.load i ∷ Event.exchange i ∷ Event.insert i uuid ∷ [])
        (rw (g, check_from) (ground arith))
      ∙ run-next w₁ w₂ (Event.load i) (Event.exchange i ∷ Event.insert i uuid ∷ [])
          (rw (get_elem?-set w.threads i Phase.idle Phase.checked g, load_from) refl)
      ∙ run-next w₂ w₃ (Event.exchange i) (Event.insert i uuid ∷ [])
          (rw (g₂, exchange_from) (ground arith))
      ∙ run-next w₃ w₄ (Event.insert i uuid) [] (rw (g₃, insert_from) refl)
      ∙ rw (set-set, set-set, set-set) (ground (arith, add64_exact w.server.jobs_running 1)),
  ground (arith, add64_exact w.server.jobs_running 1),
)
  where
    w₁ : World
    w₁ = at w i Phase.checked w.server

    w₂ : World
    w₂ = at w₁ i (Phase.loaded w.server.jobs_running) w.server

    w₃ : World
    w₃ = at w₂ i Phase.counted (compare_exchange w.server w.server.jobs_running).0

    w₄ : World
    w₄ = at w₃ i Phase.idle (add_reservation uuid w.clock w₃.server)

    g₂ : get_elem? w₂.threads i ≡ some (Phase.loaded w.server.jobs_running)
    g₂ = get_elem?-set w₁.threads i Phase.checked _ (get_elem?-set w.threads i Phase.idle _ g)

    g₃ : get_elem? w₃.threads i ≡ some Phase.counted
    g₃ = get_elem?-set w₂.threads i _ Phase.counted g₂
