-- ===== src/Server/Threads/Overshoot.antt =====
-- Two requests that interleave in `Reserve` take more slots than there are: the test reads
-- `jobsRunning`, and the exchange compares with a second read.
use distplusplus.Base.{ℕ, ◌+◌, ◌^◌, ◌<◌, ◌≡◌, refl, List, [], ◌∷◌, some, arith}
use distplusplus.Base.Words.{add64_exact}
use distplusplus.Server.Jobs.{Server, compare_exchange}
use distplusplus.Server.Threads.{
  Phase, Reaper, World, Event, check_from, load_from, exchange_from, step, run,
}

abbrev pub race : List Event
race =
    Event.check 0
    ∷ Event.check 1
    ∷ Event.load 0
    ∷ Event.exchange 0
    ∷ Event.load 1
    ∷ Event.exchange 1
    ∷ []

abbrev pub two_idle : Server → List Phase → Reaper → ℕ → World
two_idle s rest r now = record {
  server = s;
  threads = Phase.idle ∷ Phase.idle ∷ rest;
  reaper = r;
  clock = now;
}

-- From every server with one slot left, two idle threads and `jobs_max + 1` below `2 ^ 64`, a
-- schedule of two `Reserve` counts both jobs, and the counter is one above `jobs_max`.
pub race_overshoots :
    (s : Server) (rest : List Phase) (r : Reaper) (now : ℕ)
    → s.jobs_running + 1 ≡ s.jobs_max
    → s.jobs_max + 1 < 2 ^ 64
    → (w : World) × (run (two_idle s rest r now) race ≡ some w)
      × (w.server.jobs_running ≡ s.jobs_max + 1)
      × (w.threads ≡ Phase.counted ∷ Phase.counted ∷ rest)
unfolding run step check_from load_from exchange_from compare_exchange
race_overshoots s rest r now left fits = (
  record {
    server = record s { jobs_running = s.jobs_max + 1 };
    threads = Phase.counted ∷ Phase.counted ∷ rest;
    reaper = r;
    clock = now;
  },
  ground (arith, add64_exact s.jobs_running 1, add64_exact s.jobs_max 1),
  refl,
  refl,
)
