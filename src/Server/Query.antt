-- ===== src/Server/Query.antt =====
-- src/server/server.cpp: `Query`. The load is a parameter: what the division by `jobsMax` gives as a
-- std::uint32_t, or none where `getloadavg` fails.
use distplusplus.Base.{
  ℕ, ◌≤◌, ◌≡◌, refl, sym, ◌∙◌, ◌↔◌, Bool, true, false, not, ◌++◌, Option, none, some, ltb, arith,
  if◌then◌else◌,
}
use distplusplus.Base.Text.{Text, codes}
use distplusplus.Common.Status.{Status, StatusCode, status, status_ok}
use distplusplus.Common.Compression.{CompressionType, Zstd}
use distplusplus.Server.Jobs.{Server}
use distplusplus.Server.Requests.{Listing, is_basename, check_compiler_allowed}
use distplusplus.Server.Distribute.Endures.{IsKnown}

pub record ServerQuery : Type 0 where
  pub compiler : Text
  pub desired_compression_type : CompressionType

pub record QueryAnswer : Type 0 where
  pub compiler_supported : Bool
  pub compression_type_supported : Bool
  pub current_load : ℕ
  pub max_jobs : ℕ

abbrev pub empty_answer : QueryAnswer
empty_answer = record {
  compiler_supported = false;
  compression_type_supported = false;
  current_load = 0;
  max_jobs = 0;
}

-- `std::min(loadavg, 100U)`, or 0.
unfoldable pub reported_load : Option ℕ → ℕ
reported_load none = 0
reported_load (some load) = if ltb 100 load then 100 else load

-- A type that the enum does not name leaves the answer's default.
unfoldable pub compression_supported : Zstd → CompressionType → Bool
compression_supported z CompressionType.none = true
compression_supported z CompressionType.zstd = z.enabled
compression_supported z (CompressionType.other n) = false

module _ (z : Zstd) (directory : Text → Listing) (load : ℕ → Option ℕ) where
  -- `none` is the end of the process, by the handler of exceptions.
  unfoldable pub query : Server → ServerQuery → Option (Status × QueryAnswer)
  unfolding reported_load compression_supported
  query s q =
      if not (is_basename q.compiler)
      then some (
        status StatusCode.invalid_argument
            (codes "compiler " ++ (q.compiler ++ codes " does not look like a basename")),
        empty_answer,
      )
      else elim (check_compiler_allowed directory q.compiler) [
        | none ↦ none
        | some false ↦ some (
          status StatusCode.invalid_argument
              (codes "compiler " ++ (q.compiler ++ codes " is not on allowlist")),
          empty_answer,
        )
        | some true ↦ some (
          status_ok,
          record {
            compiler_supported = true;
            compression_type_supported = compression_supported z q.desired_compression_type;
            current_load = reported_load (load s.jobs_max);
            max_jobs = s.jobs_max;
          },
        )
      ]

  supported_iff : (c : CompressionType) → (compression_supported z c ≡ true) ↔ IsKnown z c
  unfolding compression_supported
  supported_iff CompressionType.none = (λ _. tt, λ _. refl)
  supported_iff CompressionType.zstd = (λ e. e, λ e. e)
  supported_iff (CompressionType.other n) = (λ e. cc, λ e. absurd e)

  answered :
      (s : Server) (q : ServerQuery) (st : Status) (answer : QueryAnswer)
      → query s q ≡ some (st, answer)
      → st.code ≡ StatusCode.ok
      → (answer.current_load ≤ 100)
        × (answer.max_jobs ≡ s.jobs_max)
        × (answer.compression_type_supported ≡ compression_supported z q.desired_compression_type)
  unfolding query reported_load
  answered s q st answer e h = ground arith

  -- If `query` returns OK, the load in its answer is at most 100, the job limit is the server's,
  -- and the desired compression type is said to be supported exactly if it is one that the build
  -- can decompress.
  pub query_answers :
      (s : Server) (q : ServerQuery) (st : Status) (answer : QueryAnswer)
      → query s q ≡ some (st, answer)
      → st.code ≡ StatusCode.ok
      → (answer.current_load ≤ 100)
        × (answer.max_jobs ≡ s.jobs_max)
        × ((answer.compression_type_supported ≡ true) ↔ IsKnown z q.desired_compression_type)
  query_answers s q st answer e h =
      let (l, j, c) = answered s q st answer e h in
      let k = supported_iff q.desired_compression_type in
      (l, j, (λ e. k.0 (sym c ∙ e), λ e. c ∙ k.1 e))
