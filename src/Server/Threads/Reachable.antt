-- ===== src/Server/Threads/Reachable.antt =====
-- What holds of the counter in every world that the server can reach.
use distplusplus.Base.{
  ℕ, zero, suc, ◌+◌, ◌-◌, ◌^◌, ◌≤◌, ◌<◌, ◌≡◌, refl, List, [], ◌∷◌, some, arith, length, replicate,
  subst, ap, leb, Bool-cases, inl, inr, Option-cases,
}
use mathlib.Core.Option.{none-ne-some}
use distplusplus.Common.Compression.{CompressorFactory}
use distplusplus.Base.Words.{sub64_exact}
use distplusplus.Server.Reservations.{Reservation, erase_before}
use distplusplus.Server.Reservations.Order.{erase_before-IsOrdered}
use distplusplus.Server.Reservations.Members.{length-erase_before-le}
use distplusplus.Server.Jobs.{Server, fresh_server, seconds, reap}
use distplusplus.Server.Threads.{Phase, Reaper, World, Event, stamp_from, wake_from, step, run}
use distplusplus.Server.Threads.Counts.{total, holds_job, contends}
use distplusplus.Server.Threads.Bounds.{
  Inv, Kept, check-Kept, load-Kept, exchange-Kept, insert-Kept, begin-Kept, finish-Kept,
}

module _ {max n : ℕ} where
  reap-Inv :
      (w : World) (t : ℕ)
      → Inv max n w
      → Inv max n (record w { server = reap t w.server; reaper = Reaper.awake })
  unfolding reap
  reap-Inv w t v =
      let less = length-erase_before-le t rs in
      let diff : ℕ = length rs - length (erase_before t rs) in
      let falls =
        sub64_exact w.server.jobs_running diff (omega (arith, v.covered))
          (omega (arith, v.room, v.fits)) in
      record {
        limit = v.limit;
        threads = v.threads;
        ordered = erase_before-IsOrdered t rs v.ordered;
        covered = omega (arith, v.covered);
        room = omega (arith, v.room);
        fits = v.fits;
      }
    where
      rs : List Reservation
      rs = w.server.reservations

  stamp-Kept : (w : World) (r : Reaper) → Inv max n w → Kept max n (stamp_from w r)
  unfolding stamp_from
  stamp-Kept w Reaper.awake v = record {
    limit = v.limit;
    threads = v.threads;
    ordered = v.ordered;
    covered = v.covered;
    room = v.room;
    fits = v.fits;
  }
  stamp-Kept w (Reaper.asleep t) v = tt

  wake-Kept : (w : World) (r : Reaper) → Inv max n w → Kept max n (wake_from w r)
  unfolding wake_from
  wake-Kept w Reaper.awake v = tt
  wake-Kept w (Reaper.asleep t) v =
      elim (Bool-cases (leb (t + seconds w.server.reservation_timeout) w.clock)) [
        | inl e ↦ rw e (reap-Inv w t v)
        | inr e ↦ rw e tt
      ]

  step-Kept : (w : World) (e : Event) → Inv max n w → Kept max n (step w e)
  unfolding step
  step-Kept w (Event.check i) v = check-Kept max n w i v _ refl
  step-Kept w (Event.load i) v = load-Kept max n w i v _ refl
  step-Kept w (Event.exchange i) v = exchange-Kept max n w i v _ refl
  step-Kept w (Event.insert i uuid) v = insert-Kept max n w i v uuid _ refl
  step-Kept w (Event.begin i uuid) v = begin-Kept max n w i v uuid _ refl
  step-Kept w (Event.finish i) v = finish-Kept max n w i v _ refl
  step-Kept w Event.stamp v = stamp-Kept w w.reaper v
  step-Kept w Event.wake v = wake-Kept w w.reaper v
  step-Kept w (Event.pass d) v = record {
    limit = v.limit;
    threads = v.threads;
    ordered = v.ordered;
    covered = v.covered;
    room = v.room;
    fits = v.fits;
  }

  -- If the invariant holds, it holds after any one piece of any thread, of the reaper or of the
  -- clock.
  pub step-Inv : {w w' : World} (e : Event) → Inv max n w → step w e ≡ some w' → Inv max n w'
  step-Inv {w} e v h = subst (Kept max n) h (step-Kept w e v)

  pub run-Inv : {w w' : World} (es : List Event) → Inv max n w → run w es ≡ some w' → Inv max n w'
  unfolding run
  run-Inv {w} [] v h = subst (Kept max n) h v
  run-Inv {w} (e ∷ es) v h = elim (Option-cases (step w e)) [
    | inl stuck ↦ absurd (none-ne-some _ (rw (stuck, run) at h))
    | inr (u, next) ↦ run-Inv es (step-Inv e v next) (rw (next, run) at h)
  ]

-- The world in which the server starts, with `n` threads for requests.
unfoldable pub start : Server → ℕ → ℕ → World
start s n now = record {
  server = s;
  threads = replicate n Phase.idle;
  reaper = Reaper.awake;
  clock = now;
}

length-replicate : (n : ℕ) (p : Phase) → length (replicate n p) ≡ n
length-replicate zero p = refl
length-replicate (suc n) p = ap suc (length-replicate n p)

pub total-replicate :
    (f : Phase → ℕ) (n : ℕ) → f Phase.idle ≡ 0 → total f (replicate n Phase.idle) ≡ 0
unfolding total
total-replicate f zero h = refl
total-replicate f (suc n) h = omega (arith, total-replicate f n h, h)

pub start-Inv :
    (max timeout n now : ℕ) (factory : CompressorFactory)
    → 0 < max
    → max + n < 2 ^ 64
    → Inv max n (start (fresh_server max timeout factory) n now)
unfolding start fresh_server holds_job contends
start-Inv max timeout n now factory pos fits = record {
  limit = refl;
  threads = length-replicate n Phase.idle;
  ordered = tt;
  covered = omega (arith, total-replicate holds_job n refl);
  room = omega (arith, total-replicate contends n refl);
  fits = fits;
}

-- From a fresh server with `max` slots and `n` request threads, after any schedule of the threads,
-- the reaper and the clock, the counter is at least the number of listed reservations and of jobs
-- in a counted phase, and less than `max + n`. It needs `0 < max`, and `max + n` below `2 ^ 64`.
pub jobs_bounded :
    (max timeout n now : ℕ) (factory : CompressorFactory) (es : List Event) {w : World}
    → 0 < max
    → max + n < 2 ^ 64
    → run (start (fresh_server max timeout factory) n now) es ≡ some w
    → (length w.server.reservations + total holds_job w.threads ≤ w.server.jobs_running)
      × (w.server.jobs_running < max + n)
jobs_bounded max timeout n now factory es pos fits h =
    let v = run-Inv es (start-Inv max timeout n now factory pos fits) h in
    (v.covered, omega (arith, v.room))
