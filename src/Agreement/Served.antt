-- ===== src/Agreement/Served.antt =====
-- A job's way from the client's search to the answer, the servers at the other end being those of
-- src/server. `later` is the state in which a server takes the client's job, and `deliver` is what
-- gRPC gives the client of a handler's outcome.
use distplusplus.Base.{ℕ, ◌+◌, ◌≤◌, ◌<◌, ◌≡◌, refl, true, List, [], some, Result, ok}
use distplusplus.Base.Text.{Text}
use distplusplus.Common.Status.{Status, status_ok}
use distplusplus.Common.Compression.{CompressionType}
use distplusplus.Common.Tempfile.{Temps}
use distplusplus.Server.Reservations.Members.{is_reserved}
use distplusplus.Server.Jobs.{Server, seconds}
use distplusplus.Server.Requests.{CompileRequest, CompileAnswer}
use distplusplus.Server.Distribute.{Host, Outcome, distribute}
use distplusplus.Server.Distribute.Endures.{IsReady}
use distplusplus.Server.Distribute.Completes.{IsFit, distribute_completes}
use distplusplus.Client.Sending.{Failure, Slot, compile_request, distributed, passes, send}
use distplusplus.Agreement.Vacancy.{first_free, replies_in, after, IsVacant, passes-IsVacant}

module _ (state : ℕ → Text → Server) (uuid : ℕ → Text → Text) (time : ℕ → Text → ℕ) (now : ℕ → ℕ)
    (servers : List Text) (before timeout : ℕ) (later : Text → Server) where
  -- Between its reply in a pass up to `k` and the client's job a server lets no reservation go.
  abbrev pub Keeps : ℕ → Type 0
  Keeps k =
      (n : ℕ) (server : Text)
      → n ≤ k
      → is_reserved (uuid n server)
          (after state uuid time now servers before timeout n server).reservations
        ≡ true
      → is_reserved (uuid n server) (later server).reservations ≡ true

  module _ (host : Text → Host) (peer : Text) (temps : Text → Temps)
      (deliver : Outcome → Status × CompileAnswer) (compiler : Text) (args : List Text)
      (file content : Text) (type : CompressionType) (cwd : Text) where
    abbrev pub request_of : Slot → CompileRequest
    request_of slot = compile_request slot compiler args file content type cwd

    abbrev pub reply_to : Text → CompileRequest → Outcome
    reply_to server request =
        (distribute (host server) peer request (later server) (temps server)).1

    abbrev pub sent : ℕ → Result Failure CompileAnswer
    sent fuel =
        send (replies_in state uuid time now servers before timeout) now servers before timeout
          (λ server request. deliver (reply_to server request)) fuel compiler args file content type
          cwd

    delivered :
        (fuel : ℕ) (slot : Slot) (answer : CompileAnswer)
        → passes
            (replies_in state uuid time now servers before timeout)
            now
            servers
            before
            timeout
            fuel
            0
            []
            true
          ≡ ok slot
        → deliver (reply_to slot.server (request_of slot)) ≡ (status_ok, answer)
        → sent fuel ≡ ok answer
    unfolding send distributed
    delivered fuel slot answer found e = rw (found, e) refl

    -- If in pass `d` a server has a free slot, and until then the time is not up, servers keep
    -- their reservations until the job comes, gRPC delivers an answer with its status, and every
    -- host is ready for the request and has nothing to refuse it for, then with a bound above `d`
    -- passes `send` returns the answer that the `Distribute` of a server which was free in a pass
    -- up to `d` gave to the request with the uuid that this server drew.
    pub send_serves :
        (d fuel : ℕ) (free : Text)
        → d < fuel
        → ((j : ℕ) → 0 ≤ j → j < 0 + d → now j < before + seconds timeout)
        → first_free (state (0 + d)) servers ≡ some free
        → Keeps (0 + d)
        → ((st : Status) (a : CompileAnswer) → deliver (Outcome.returns st (some a)) ≡ (st, a))
        → ((slot : Slot) → IsReady (host slot.server) (later slot.server) peer (request_of slot))
        → ((slot : Slot) → IsFit (host slot.server) peer (request_of slot))
        → (slot : Slot) × IsVacant state uuid time now servers before timeout 0 (0 + d) slot
          × (answer : CompileAnswer) × (sent fuel ≡ ok answer)
          × (reply_to slot.server (request_of slot) ≡ Outcome.returns status_ok (some answer))
    unfolding compile_request
    send_serves d fuel free enough early vacant keeps delivers ready fit =
        let (slot, v, found) =
          passes-IsVacant state uuid time now servers before timeout d 0 fuel [] true free enough
            early vacant in
        let listed : is_reserved slot.uuid (later slot.server).reservations ≡ true =
          rw v.drawn (keeps v.number slot.server v.bounds.1 (rw (← v.drawn) v.listed)) in
        let (answer, e) =
          distribute_completes (host slot.server) peer (request_of slot) (later slot.server)
            (temps slot.server) listed (ready slot) (fit slot) in
        (slot, v, answer, delivered fuel slot answer found (rw e (delivers status_ok answer)), e)
