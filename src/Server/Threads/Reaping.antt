-- ===== src/Server/Threads/Reaping.antt =====
-- What one round of the reaper takes, and how old it is.
use distplusplus.Base.{ℕ, ◌+◌, ◌-◌, ◌*◌, ◌^◌, ◌<◌, ◌≡◌, some, arith, length, subst}
use distplusplus.Base.Words.{sub64_exact}
use distplusplus.Server.Reservations.{erase_before}
use distplusplus.Server.Reservations.Order.{younger, erase_before-younger, younger-erase_before}
use distplusplus.Server.Reservations.Members.{length-erase_before-le}
use distplusplus.Server.Jobs.{seconds, reap}
use distplusplus.Server.Threads.{Reaper, World, Event, wake_from, step}
use distplusplus.Server.Threads.Bounds.{Inv}

seconds_exact : (n : ℕ) → n < 2 ^ 63 → seconds n ≡ n * 1_000_000_000
unfolding seconds
seconds_exact n small = ground arith

reaped :
    {max n : ℕ} (w : World) (t : ℕ) {w' : World}
    → Inv max n w
    → wake_from w (Reaper.asleep t) ≡ some w'
    → (w'.server.reservations ≡ younger t w.server.reservations)
      × (younger (w.clock - seconds w.server.reservation_timeout) w'.server.reservations
          ≡ younger (w.clock - seconds w.server.reservation_timeout) w.server.reservations)
      × (w'.server.jobs_running + length w.server.reservations
          ≡ w.server.jobs_running + length w'.server.reservations)
unfolding wake_from reap
reaped w t v h = ground (
  arith,
  erase_before-younger t w.server.reservations v.ordered,
  younger-erase_before (w.clock - seconds w.server.reservation_timeout) t w.server.reservations,
  length-erase_before-le t w.server.reservations,
  sub64_exact w.server.jobs_running
      (length w.server.reservations - length (erase_before t w.server.reservations)),
  v.covered,
  v.room,
  v.fits,
)

-- Where the invariant holds, `reservationTimeout` is below `2 ^ 63`, and a reaper that took the stamp
-- `t` ends its round, the reservations left are those not made before `t`, those at most
-- `reservationTimeout` seconds old are all left, and the counter falls by as many as are gone.
pub wake-reaps :
    {max n : ℕ} (w : World) (t : ℕ) {w' : World}
    → Inv max n w
    → w.server.reservation_timeout < 2 ^ 63
    → w.reaper ≡ Reaper.asleep t
    → step w Event.wake ≡ some w'
    → let since = w.clock - w.server.reservation_timeout * 1_000_000_000 in
      (w'.server.reservations ≡ younger t w.server.reservations)
      × (younger since w'.server.reservations ≡ younger since w.server.reservations)
      × (w'.server.jobs_running + length w.server.reservations
          ≡ w.server.jobs_running + length w'.server.reservations)
unfolding step
wake-reaps w t {w'} v small asleep h =
    let (left, young, falls) = reaped w t v (subst (λ r. wake_from w r ≡ some w') asleep h) in
    let exact = seconds_exact w.server.reservation_timeout small in (left, rw exact at young, falls)
