-- ===== src/Tests/Reserving.antt =====
-- Calls of `Reserve` on a server with a free slot.
use distplusplus.Base.{◌≡◌, refl, [], ◌∷◌, some, arith}
use distplusplus.Base.Text.{codes}
use distplusplus.Base.Words.{to_text}
use distplusplus.Common.Compression.{CompressionType}
use distplusplus.Server.Reservations.{emplace}
use distplusplus.Server.Jobs.{Server, reserve}
use distplusplus.Server.Threads.{Phase, Reaper, World, Event, run, at}
use distplusplus.Server.Reserving.{run-reserve}

abbrev half_full : Server
half_full = record {
  compressor_factory = record { compression_type = CompressionType.none; compression_level = 1 };
  jobs_max = 2;
  reservation_timeout = 1;
  jobs_running = 1;
  reservations = record { uuid = codes "a"; time = 3 } ∷ [];
}

abbrev waiting : World
waiting = record {
  server = half_full;
  threads = Phase.idle ∷ Phase.idle ∷ [];
  reaper = Reaper.awake;
  clock = 7;
}

abbrev reserved : Server
reserved = record half_full {
  jobs_running = 2;
  reservations = emplace (record { uuid = codes "b"; time = 7 }) half_full.reservations;
}

run-reserve_example :
    (run waiting (Event.check 1 ∷ Event.load 1 ∷ Event.exchange 1 ∷ Event.insert 1 (codes "b") ∷ [])
      ≡ some (at waiting 1 Phase.idle reserved))
    × ((reserve (codes "b") 7 half_full).0 ≡ reserved)
run-reserve_example = run-reserve waiting 1 (codes "b") refl (omega arith) (omega arith)

details_of_full : to_text 2 ≡ codes "2"
unfolding to_text
details_of_full = refl
