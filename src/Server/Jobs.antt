-- ===== src/Server/Jobs.antt =====
-- src/server/server.hpp and server.cpp: the server's counters and reservations, and the atomic
-- pieces in which the handlers and the reaper change them. A time is a count of the ticks of
-- std::chrono::system_clock.
use distplusplus.Base.{
  ℕ, ◌-◌, ◌*◌, ◌^◌, Bool, true, false, List, [], length, ltb, ◌==◌, Option, some, none, Result, ok,
  err, if◌then◌else◌,
}
use distplusplus.Base.Text.{Text, codes}
use distplusplus.Base.Words.{add64, sub64, to_text}
use distplusplus.Common.Status.{Status, StatusCode, status_ok}
use distplusplus.Common.Compression.{CompressorFactory}
use distplusplus.Common.ScopeGuard.{scope_guard, defuse, run_guard}
use distplusplus.Server.Reservations.{Reservation, emplace, erase_uuid, erase_before}

-- `std::chrono::seconds` of a uint64_t, in nanoseconds. Its count is a signed 64-bit number: from
-- 2 ^ 63 on it is negative, and `sleep_for` returns at once, as it does for none.
unfoldable pub seconds : ℕ → ℕ
seconds n = if ltb n (2 ^ 63) then n * 1_000_000_000 else 0

pub record Server : Type 0 where
  pub compressor_factory : CompressorFactory
  pub jobs_max : ℕ
  pub reservation_timeout : ℕ
  pub jobs_running : ℕ
  pub reservations : List Reservation

-- The members' initialisers.
unfoldable pub fresh_server : ℕ → ℕ → CompressorFactory → Server
fresh_server max_jobs timeout factory = record {
  compressor_factory = factory;
  jobs_max = max_jobs;
  reservation_timeout = timeout;
  jobs_running = 0;
  reservations = [];
}

-- The constructor; with the macro NDEBUG defined its assertion does nothing.
unfoldable pub new_server : Bool → ℕ → ℕ → CompressorFactory → Result Text Server
unfolding fresh_server
new_server ndebug max_jobs timeout factory =
    if ndebug
    then ok (fresh_server max_jobs timeout factory)
    else if max_jobs == 0
    then err (codes "assertion failed: tried to construct server with 0 max jobs")
    else ok (fresh_server max_jobs timeout factory)

-- `std::atomic_compare_exchange_strong(&jobsRunning, &jobsCur, jobsCur + 1)`.
unfoldable pub compare_exchange : Server → ℕ → Server × Bool
unfolding add64
compare_exchange s jobs_cur =
    if s.jobs_running == jobs_cur
    then (record s { jobs_running = add64 jobs_cur 1 }, true)
    else (s, false)

-- `jobsRunning--`, the action of the job count guards.
unfoldable pub release_job : Server → Server
unfolding sub64
release_job s = record s { jobs_running = sub64 s.jobs_running 1 }

-- The locked block of `Reserve`.
unfoldable pub add_reservation : Text → ℕ → Server → Server
add_reservation uuid now s = record s {
  reservations = emplace (record { uuid = uuid; time = now }) s.reservations;
}

-- The locked block of `Distribute`, with whether any entry was erased.
unfoldable pub take_reservation : Text → Server → Server × Bool
take_reservation uuid s =
    let rest = erase_uuid uuid s.reservations in
    if length s.reservations - length rest == 0
    then (s, false)
    else (record s { reservations = rest }, true)

-- The locked block of `reservationReaper`. The lock does not guard the counter,
-- which falls behind the erasure; the two are one step here. Only a `Reserve` between them could tell:
-- it finds the counter higher by the reservations that are gone, and may reject for it.
unfoldable pub reap : ℕ → Server → Server
unfolding sub64
reap timestamp s =
    let rest = erase_before timestamp s.reservations in
    let diff = length s.reservations - length rest in
    record s { reservations = rest; jobs_running = sub64 s.jobs_running diff }

-- The reply of `Reserve`.
pub record ReservationAnswer : Type 0 where
  pub success : Bool
  pub uuid : Option Text

-- The rejection, with the value of `jobsCur`.
unfoldable pub host_full : ℕ → Status
host_full jobs_cur = record {
  code = StatusCode.resource_exhausted;
  message = codes "host is full";
  details = to_text jobs_cur;
}

-- What `Reserve` does after the exchange, if it is not interrupted; the guard is defused at the end.
unfoldable pub after_exchange : Text → ℕ → ℕ → Server × Bool → Server × (Status × ReservationAnswer)
unfolding add_reservation host_full release_job scope_guard defuse run_guard
after_exchange uuid now jobs_cur (s, true) =
    let guard = defuse (scope_guard release_job) in
    (
      run_guard guard (add_reservation uuid now s),
      (status_ok, record { success = true; uuid = some uuid }),
    )
after_exchange uuid now jobs_cur (s, false) =
    (s, (host_full jobs_cur, record { success = false; uuid = none }))

-- `Reserve`, run with no other thread between its reads of `jobsRunning`. The uuid and the time are
-- those that it would draw.
unfoldable pub reserve : Text → ℕ → Server → Server × (Status × ReservationAnswer)
unfolding compare_exchange after_exchange
reserve uuid now s =
    if ltb s.jobs_running s.jobs_max
    then after_exchange uuid now s.jobs_running (compare_exchange s s.jobs_running)
    else (s, (host_full s.jobs_max, record { success = false; uuid = none }))
