-- ===== src/Server/Threads.antt =====
-- src/server/server.cpp: the gRPC threads and the reaper as interleavings of their atomic pieces.
-- A thread that has no request is idle. What a request does under no lock and without the counter
-- is not a step here, and the clock is never set back.
pub mod Counts
pub mod Bounds
pub mod Reachable
pub mod Overshoot
pub mod Exact
pub mod Reaping
use distplusplus.Base.{
  ℕ, ◌+◌, Bool, true, false, List, [], ◌∷◌, ltb, leb, Option, some, none, get_elem?, set,
  if◌then◌else◌,
}
use distplusplus.Base.Text.{Text}
use distplusplus.Server.Jobs.{
  Server, seconds, compare_exchange, release_job, add_reservation, take_reservation, reap,
}

-- Where a request stands.
pub data Phase : Type 0 where
  idle : Phase
  -- `Reserve` has seen `jobsRunning < jobsMax`
  checked : Phase
  -- `Reserve` has loaded `jobsCur`
  loaded : ℕ → Phase
  -- `Reserve` has counted the job, and has not yet listed the reservation
  counted : Phase
  -- `Distribute` has taken the reservation, and its guard is armed
  compiling : Phase

-- The reaper is at the top of its loop, or sleeps since it took its stamp.
pub data Reaper : Type 0 where
  awake : Reaper
  asleep : ℕ → Reaper

pub record World : Type 0 where
  pub server : Server
  pub threads : List Phase
  pub reaper : Reaper
  pub clock : ℕ

-- The scheduler's choices: which thread goes on, and how far the clock moves.
pub data Event : Type 0 where
  check load exchange finish : ℕ → Event
  insert begin : ℕ → Text → Event
  stamp wake : Event
  pass : ℕ → Event

abbrev pub at : World → ℕ → Phase → Server → World
at w i p s = record w { server = s; threads = set w.threads i p }

abbrev exchanged : World → ℕ → Server × Bool → World
exchanged w i (s, true) = at w i Phase.counted s
exchanged w i (s, false) = at w i Phase.idle s

abbrev begun : World → ℕ → Server × Bool → World
begun w i (s, true) = at w i Phase.compiling s
begun w i (s, false) = at w i Phase.idle s

-- A thread's next piece, if it is at that piece; `none` if it is not.
unfoldable pub check_from : World → ℕ → Option Phase → Option World
check_from w i (some Phase.idle) = some (
    at w i (if ltb w.server.jobs_running w.server.jobs_max then Phase.checked else Phase.idle)
      w.server)
check_from w i _ = none

unfoldable pub load_from : World → ℕ → Option Phase → Option World
load_from w i (some Phase.checked) = some (at w i (Phase.loaded w.server.jobs_running) w.server)
load_from w i _ = none

unfoldable pub exchange_from : World → ℕ → Option Phase → Option World
exchange_from w i (some (Phase.loaded jobs_cur)) =
    some (exchanged w i (compare_exchange w.server jobs_cur))
exchange_from w i _ = none

unfoldable pub insert_from : World → ℕ → Text → Option Phase → Option World
insert_from w i uuid (some Phase.counted) =
    some (at w i Phase.idle (add_reservation uuid w.clock w.server))
insert_from w i uuid _ = none

unfoldable pub begin_from : World → ℕ → Text → Option Phase → Option World
begin_from w i uuid (some Phase.idle) = some (begun w i (take_reservation uuid w.server))
begin_from w i uuid _ = none

unfoldable pub finish_from : World → ℕ → Option Phase → Option World
finish_from w i (some Phase.compiling) = some (at w i Phase.idle (release_job w.server))
finish_from w i _ = none

unfoldable pub stamp_from : World → Reaper → Option World
stamp_from w Reaper.awake = some (record w { reaper = Reaper.asleep w.clock })
stamp_from w (Reaper.asleep t) = none

-- `sleep_for` returns no earlier than `reservationTimeout` after it was called.
unfoldable pub wake_from : World → Reaper → Option World
wake_from w Reaper.awake = none
wake_from w (Reaper.asleep t) =
    if leb (t + seconds w.server.reservation_timeout) w.clock
    then some (record w { server = reap t w.server; reaper = Reaper.awake })
    else none

unfoldable pub step : World → Event → Option World
step w (Event.check i) = check_from w i (get_elem? w.threads i)
step w (Event.load i) = load_from w i (get_elem? w.threads i)
step w (Event.exchange i) = exchange_from w i (get_elem? w.threads i)
step w (Event.insert i uuid) = insert_from w i uuid (get_elem? w.threads i)
step w (Event.begin i uuid) = begin_from w i uuid (get_elem? w.threads i)
step w (Event.finish i) = finish_from w i (get_elem? w.threads i)
step w Event.stamp = stamp_from w w.reaper
step w Event.wake = wake_from w w.reaper
step w (Event.pass d) = some (record w { clock = w.clock + d })

unfoldable pub run : World → List Event → Option World
run w [] = some w
run w (e ∷ es) = elim (step w e) [ none ↦ none | some w' ↦ run w' es ]
