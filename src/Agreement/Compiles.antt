-- ===== src/Agreement/Compiles.antt =====
-- A job that the client can send, with servers at the other end that are ready for it.
use distplusplus.Base.{ℕ, ◌+◌, ◌≤◌, ◌<◌, ◌≡◌, sym, subst, true, List, some, ok}
use distplusplus.Base.Text.{Text}
use distplusplus.Base.FilePath.{filename, stem}
use distplusplus.Base.FileSystem.{read}
use distplusplus.Common.Status.{Status, status_ok}
use distplusplus.Common.Compression.{CompressionType, Zstd, compress, decompress}
use distplusplus.Common.Compression.RoundTrip.{IsLossless}
use distplusplus.Common.Tempfile.{Temps}
use distplusplus.Server.Jobs.{Server, seconds}
use distplusplus.Server.Requests.{CompileRequest, CompileAnswer, check_compiler_allowed}
use distplusplus.Server.Distribute.{Host, Outcome}
use distplusplus.Server.Distribute.Slots.{taken}
use distplusplus.Server.Distribute.Answers.{distribute_answers, answer_decompresses}
use distplusplus.Server.Distribute.Endures.{IsReady}
use distplusplus.Client.Parser.{FileSystem, Parser}
use distplusplus.Client.Command.{compiler_name, job_args}
use distplusplus.Client.Sending.{Slot, compile_request}
use distplusplus.Agreement.EndToEnd.{IsServed, IsCompiled, served-IsCompiled}
use distplusplus.Agreement.Fit.{IsSendable, sendable-IsFit}
use distplusplus.Agreement.Vacancy.{first_free, IsVacant}
use distplusplus.Agreement.Served.{Keeps, sent, send_serves}

-- An answer that a host gave can be read by the client.
served_text :
    (host : Text → Host) (z : Zstd) (type : CompressionType) (compiler : Text) (args : List Text)
    (file content : Text) (answer : CompileAnswer)
    → IsLossless z
    → IsServed host z type compiler args file content answer
    → (text : Text) × (decompress z answer.output_file.compression_type answer.output_file.content
        ≡ ok text)
served_text host z type compiler args file content answer lossless s =
    let request = compile_request s.slot compiler args file content type s.cwd in
    let r =
      (distribute_answers (host s.slot.server) s.peer request s.server s.temps s.status answer
        s.returned).3 in
    let host_lossless = subst IsLossless (sym s.same_filters) lossless in
    (
      read r.output.path r.after,
      subst
          (λ y.
            decompress y answer.output_file.compression_type answer.output_file.content
            ≡ ok (read r.output.path r.after))
          s.same_filters
          (answer_decompresses (host s.slot.server)
            (taken (host s.slot.server) s.peer request s.server) s.peer request answer s.temps
            host_lossless r),
    )

module _ (state : ℕ → Text → Server) (uuid : ℕ → Text → Text) (time : ℕ → Text → ℕ) (now : ℕ → ℕ)
    (servers : List Text) (before timeout : ℕ) (later : Text → Server) (host : Text → Host)
    (peer : Text) (temps : Text → Temps) (deliver : Outcome → Status × CompileAnswer)
    (fs : FileSystem) (bound : ℕ) (args : List Text) (build_target program : Text) (p : Parser)
    (z : Zstd) (type : CompressionType) (level : ℕ) (source content cwd : Text) where
  abbrev pub compiler : Text
  compiler = compiler_name build_target (stem program)

  abbrev pub sent_args : List Text
  sent_args = job_args build_target (stem program) p

  abbrev pub request_in : Slot → CompileRequest
  request_in slot = compile_request slot compiler sent_args (filename p.infile) content type cwd

  -- If the client's parse makes a job that it can send, every host has the client's filters, which
  -- are lossless, allows the compiler and is ready for the request, in pass `d` a server has a free
  -- slot, until then the time is not up, servers keep their reservations until the job comes and
  -- gRPC delivers an answer with its status, then with a bound above `d` passes `send` returns an
  -- answer that can be read, from a server which was free in a pass up to
  -- `d`, and its code and text are what one run of this host's compiler made of the source.
  pub job_compiles :
      (d fuel : ℕ) (free : Text)
      → IsSendable fs bound args build_target p
      → IsLossless z
      → ((server : Text) → (host server).zstd ≡ z)
      → ((server : Text) → check_compiler_allowed (host server).directory compiler ≡ some true)
      → ((slot : Slot) → IsReady (host slot.server) (later slot.server) peer (request_in slot))
      → compress z type level source ≡ ok content
      → d < fuel
      → ((j : ℕ) → 0 ≤ j → j < 0 + d → now j < before + seconds timeout)
      → first_free (state (0 + d)) servers ≡ some free
      → Keeps state uuid time now servers before timeout later (0 + d)
      → ((st : Status) (a : CompileAnswer) → deliver (Outcome.returns st (some a)) ≡ (st, a))
      → (slot : Slot) × IsVacant state uuid time now servers before timeout 0 (0 + d) slot
        × (answer : CompileAnswer) × (text : Text) × (sent state uuid time now servers before
              timeout later host peer temps deliver compiler sent_args
              (filename p.infile)
              content
              type
              cwd
              fuel
            ≡ ok answer)
        × (decompress z answer.output_file.compression_type answer.output_file.content ≡ ok text)
        × IsCompiled (host slot.server) compiler sent_args source answer.return_code text
  job_compiles d fuel free job lossless same allowed ready packed enough early vacant keeps
        delivers =
      let (slot, v, answer, e, given) =
        send_serves state uuid time now servers before timeout later host peer temps deliver
          compiler sent_args (filename p.infile) content type cwd d fuel free enough early vacant
          keeps delivers ready
          (λ slot.
            sendable-IsFit fs bound args build_target program p job (host slot.server) peer slot
              type level source content cwd (subst IsLossless (sym (same slot.server)) lossless)
              (subst (λ y. compress y type level source ≡ ok content) (sym (same slot.server))
                packed)
              (allowed slot.server)) in
      let s : IsServed host z type compiler sent_args (filename p.infile) content answer = record {
        server = later slot.server;
        temps = temps slot.server;
        peer = peer;
        slot = slot;
        cwd = cwd;
        status = status_ok;
        same_filters = same slot.server;
        promise = (ready slot).orderly.promise;
        returned = given;
      } in
      let (text, unpacked) =
        served_text host z type compiler sent_args (filename p.infile) content answer lossless s in
      (
        slot,
        v,
        answer,
        text,
        e,
        unpacked,
        served-IsCompiled host z lossless type level compiler sent_args (filename p.infile) source
            content text answer packed unpacked s,
      )
