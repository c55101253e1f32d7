-- ===== src/Client/Sending.antt =====
-- src/client/client.cpp: `reserve` and `send`. What the servers reply and what the clock shows are
-- parameters, by the number of the pass over the servers. `fuel` bounds the number of passes, which
-- the program bounds by time. gRPC gives a client named status codes only.
pub mod Passes
pub mod Ends
use distplusplus.Base.{
  ℕ, zero, suc, ◌+◌, Bool, true, false, List, [], ◌∷◌, Option, none, some, Result, ok, err, ◌>>=◌,
  leb, if◌then◌else◌,
}
use distplusplus.Base.Text.{Text}
use distplusplus.Common.Status.{Status, StatusCode}
use distplusplus.Common.Compression.{CompressionType}
use distplusplus.Server.Jobs.{ReservationAnswer, seconds}
use distplusplus.Server.Requests.{File, CompileRequest, CompileAnswer}

-- Where `FallbackSignal` is thrown, and the model's bound.
pub data Failure : Type 0 where
  no_uuid all_unreachable no_vacancy refused out_of_fuel : Failure

pub record Reply : Type 0 where
  pub status : Status
  pub answer : ReservationAnswer

-- `Client::reserve`: the status, and the member `uuid` behind it.
unfoldable pub reserve : Reply → Text → Result Failure (StatusCode × Text)
reserve r uuid = elim r.answer.success [
  | true ↦ elim r.answer.uuid [ none ↦ err Failure.no_uuid | some new ↦ ok (r.status.code, new) ]
  | false ↦ ok (r.status.code, uuid)
]

-- What the loop over the servers leaves: `uuid`, `allDown`, and the server that it has found.
pub record Pass : Type 0 where
  pub uuid : Text
  pub all_down : Bool
  pub found : Option Text

-- The loop's body behind the reservation, for the servers that are left.
unfoldable pub by_code :
    StatusCode → Text → Text → Bool → (Bool → Result Failure Pass) → Result Failure Pass
by_code StatusCode.ok server uuid all_down next =
    ok (record { uuid = uuid; all_down = false; found = some server })
by_code StatusCode.resource_exhausted server uuid all_down next = next false
by_code _ server uuid all_down next = next all_down

unfoldable pub pass : (Text → Reply) → List Text → Text → Bool → Result Failure Pass
unfolding reserve by_code
pass reply [] uuid all_down = ok (record { uuid = uuid; all_down = all_down; found = none })
pass reply (server ∷ servers) uuid all_down =
    reserve (reply server) uuid >>= λ r. by_code r.0 server r.1 all_down (pass reply servers r.1)

-- A server with a slot, and the reservation's uuid.
pub record Slot : Type 0 where
  pub server : Text
  pub uuid : Text

module _ (reply : ℕ → Text → Reply) (now : ℕ → ℕ) (servers : List Text) (before timeout : ℕ) where
  -- The three tests behind a pass; `next` is the following pass.
  unfoldable pub after_pass : ℕ → Pass → (Unit {0} → Result Failure Slot) → Result Failure Slot
  after_pass i r next = elim r.all_down [
    | true ↦ err Failure.all_unreachable
    | false ↦ elim r.found [
      | some server ↦ ok (record { server = server; uuid = r.uuid })
      | none ↦ elim (leb (before + seconds timeout) (now i)) [
        | true ↦ err Failure.no_vacancy
        | false ↦ next tt
      ]
    ]
  ]

  -- The passes from number `i` on.
  unfoldable pub passes : ℕ → ℕ → Text → Bool → Result Failure Slot
  unfolding pass after_pass
  passes zero i uuid all_down = err Failure.out_of_fuel
  passes (suc fuel) i uuid all_down = pass (reply i) servers uuid all_down >>= λ r.
      after_pass i r (λ _. passes fuel (suc i) r.uuid r.all_down)

-- The request that `send` fills in.
unfoldable pub compile_request :
    Slot → Text → List Text → Text → Text → CompressionType → Text → CompileRequest
compile_request slot compiler args file_name content type cwd = record {
  uuid = slot.uuid;
  compiler = compiler;
  input_file = record { name = file_name; compression_type = type; content = content };
  cwd = cwd;
  argument = args;
}

-- What `send` makes of the reply to `Distribute`.
unfoldable pub distributed : Status → CompileAnswer → Result Failure CompileAnswer
distributed status answer = elim status.code [ StatusCode.ok ↦ ok answer | _ ↦ err Failure.refused ]

module _ (reply : ℕ → Text → Reply) (now : ℕ → ℕ) (servers : List Text) (before timeout : ℕ)
    (distribute : Text → CompileRequest → Status × CompileAnswer) where
  unfoldable pub send :
      ℕ → Text → List Text → Text → Text → CompressionType → Text → Result Failure CompileAnswer
  unfolding passes compile_request distributed
  send fuel compiler args file_name content type cwd =
      passes reply now servers before timeout fuel 0 [] true >>= λ slot.
      let (status, answer) =
        distribute slot.server (compile_request slot compiler args file_name content type cwd) in
      distributed status answer
