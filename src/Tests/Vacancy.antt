-- ===== src/Tests/Vacancy.antt =====
-- Two servers that are full when they are first asked, and one of which is free the second time.
use distplusplus.Base.{
  ℕ, true, ◌++◌, ◌+◌, ◌≤◌, ◌<◌, ◌≡◌, refl, List, [], ◌∷◌, some, ok, arith, ◌==◌, if◌then◌else◌,
}
use distplusplus.Base.Text.{Text, codes, text_eq}
use distplusplus.Common.Compression.{CompressionType}
use distplusplus.Server.Jobs.{Server, seconds}
use distplusplus.Client.Sending.{Slot, passes}
use distplusplus.Agreement.Vacancy.{first_free, IsVacant, replies_in, passes-IsVacant}

abbrev pub with_jobs : ℕ → Server
with_jobs n = record {
  compressor_factory = record { compression_type = CompressionType.zstd; compression_level = 1 };
  jobs_max = 2;
  reservation_timeout = 1;
  jobs_running = n;
  reservations = [];
}

abbrev pub state : ℕ → Text → Server
state i server =
    if text_eq server (codes "b") then with_jobs (if i == 0 then 2 else 1) else with_jobs 2

abbrev pub drawn : ℕ → Text → Text
drawn i server = server ++ codes "-uuid"

abbrev pub asked : List Text
asked = codes "a" ∷ codes "b" ∷ []

pub free_later : first_free (state 1) asked ≡ some (codes "b")
unfolding first_free text_eq
free_later = refl

pub in_time : (j : ℕ) → 0 ≤ j → j < 1 → j < 0 + seconds 10
unfolding seconds
in_time j low high = omega arith

passes-IsVacant_example :
    (slot : Slot) × IsVacant state drawn (λ i server. i) (λ i. i) asked 0 10 0 1 slot
    × (passes
          (replies_in state drawn (λ i server. i) (λ i. i) asked 0 10)
          (λ i. i)
          asked
          0
          10
          2
          0
          []
          true
        ≡ ok slot)
passes-IsVacant_example =
    passes-IsVacant state drawn (λ i server. i) (λ i. i) asked 0 10 1 0 2 [] true (codes "b")
      (omega arith) in_time free_later
