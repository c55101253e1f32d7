-- ===== src/Tests/Threads.antt =====
-- Schedules of a server with two slots and three threads.
use distplusplus.Base.{◌+◌, ◌≤◌, ◌<◌, ◌≡◌, refl, List, [], ◌∷◌, some, arith, length}
use distplusplus.Base.Text.{codes, text_eq}
use distplusplus.Base.Words.{add64, sub64}
use distplusplus.Common.Compression.{CompressionType, CompressorFactory}
use distplusplus.Server.Reservations.{emplace, erase_uuid, erase_before}
use distplusplus.Server.Reservations.Order.{younger}
use distplusplus.Server.Reservations.Members.{is_reserved}
use distplusplus.Server.Jobs.{
  Server, seconds, fresh_server, compare_exchange, add_reservation, take_reservation, reap,
}
use distplusplus.Server.Threads.{
  Phase, Reaper, World, Event, check_from, load_from, exchange_from, insert_from, begin_from,
  wake_from, step, run,
}
use distplusplus.Server.Threads.Counts.{total, holds_job}
use distplusplus.Server.Threads.Bounds.{Inv}
use distplusplus.Server.Threads.Reachable.{start, start-Inv, run-Inv, jobs_bounded}
use distplusplus.Server.Threads.Exact.{Reach, here, next, jobs_exact}
use distplusplus.Server.Threads.Overshoot.{race, two_idle, race_overshoots}
use distplusplus.Server.Threads.Reaping.{wake-reaps}

abbrev plain_factory : CompressorFactory
plain_factory = record { compression_type = CompressionType.none; compression_level = 1 }

abbrev two_slots : Server
two_slots = record {
  compressor_factory = plain_factory;
  jobs_max = 2;
  reservation_timeout = 1;
  jobs_running = 0;
  reservations = [];
}

abbrev reserving : List Event
reserving =
    Event.check 0
    ∷ Event.load 0
    ∷ Event.exchange 0
    ∷ Event.check 1
    ∷ Event.insert 0 (codes "a")
    ∷ []

abbrev reserved : World
reserved = record {
  server = record two_slots {
    jobs_running = 1;
    reservations = record { uuid = codes "a"; time = 7 } ∷ [];
  };
  threads = Phase.idle ∷ Phase.checked ∷ Phase.idle ∷ [];
  reaper = Reaper.awake;
  clock = 7;
}

reserving-run : run (start (fresh_server 2 1 plain_factory) 3 7) reserving ≡ some reserved
unfolding run step check_from load_from exchange_from insert_from start fresh_server
    compare_exchange add_reservation add64 emplace
reserving-run = refl

jobs_bounded_example :
    (length reserved.server.reservations + total holds_job reserved.threads
      ≤ reserved.server.jobs_running)
    × (reserved.server.jobs_running < 2 + 3)
jobs_bounded_example =
    jobs_bounded 2 1 3 7 plain_factory reserving (omega arith) (omega arith) reserving-run

-- The reservation is taken, and its job is being compiled.
abbrev compiling : World
compiling = record {
  server = record two_slots { jobs_running = 1 };
  threads = Phase.compiling ∷ Phase.checked ∷ Phase.idle ∷ [];
  reaper = Reaper.awake;
  clock = 7;
}

abbrev counted : World
counted = record {
  server = record two_slots { jobs_running = 1 };
  threads = Phase.counted ∷ Phase.idle ∷ Phase.idle ∷ [];
  reaper = Reaper.awake;
  clock = 7;
}

compiling_reached : Reach (start (fresh_server 2 1 plain_factory) 3 7) compiling
unfolding step check_from load_from exchange_from insert_from begin_from start fresh_server
    compare_exchange add_reservation take_reservation add64 emplace erase_uuid text_eq is_reserved
compiling_reached =
    next (Event.begin 0 (codes "a"))
      (next (Event.insert 0 (codes "a"))
        (next {v = record counted { threads = Phase.counted ∷ Phase.checked ∷ Phase.idle ∷ [] }}
          (Event.check 1)
          (next (Event.exchange 0) (next (Event.load 0) (next (Event.check 0) here tt refl) tt refl)
            tt refl)
          tt refl)
        refl refl)
      tt refl

jobs_exact_example :
    compiling.server.jobs_running
    ≡ length compiling.server.reservations + total holds_job compiling.threads
jobs_exact_example = jobs_exact 2 1 3 7 plain_factory (omega arith) (omega arith) compiling_reached

race_overshoots_example :
    (w : World) × (run (two_idle (record two_slots { jobs_running = 1 }) [] Reaper.awake 7) race
      ≡ some w)
    × (w.server.jobs_running ≡ two_slots.jobs_max + 1)
    × (w.threads ≡ Phase.counted ∷ Phase.counted ∷ [])
race_overshoots_example =
    race_overshoots (record two_slots { jobs_running = 1 }) [] Reaper.awake 7 refl (omega arith)

reserved-Inv : Inv 2 3 reserved
reserved-Inv =
    run-Inv reserving (start-Inv 2 1 3 7 plain_factory (omega arith) (omega arith)) reserving-run

abbrev stale : World
stale = record reserved { reaper = Reaper.asleep 8; clock = 1_000_000_008 }

abbrev swept : World
swept = record stale { server = record two_slots { jobs_running = 0 }; reaper = Reaper.awake }

stale-Inv : Inv 2 3 stale
stale-Inv =
    let v = reserved-Inv in
    record {
      limit = v.limit;
      threads = v.threads;
      ordered = v.ordered;
      covered = v.covered;
      room = v.room;
      fits = v.fits;
    }

sweeps : step stale Event.wake ≡ some swept
unfolding step wake_from reap seconds erase_before sub64
sweeps = refl

wake-reaps_example :
    (swept.server.reservations ≡ younger 8 stale.server.reservations)
    × (younger 8 swept.server.reservations ≡ younger 8 stale.server.reservations)
    × (swept.server.jobs_running + length stale.server.reservations
        ≡ stale.server.jobs_running + length swept.server.reservations)
unfolding seconds
wake-reaps_example = wake-reaps stale 8 stale-Inv (omega arith) refl sweeps
