-- ===== src/Agreement/Works.antt =====
-- The whole program at work: `main` with `Client::send` and the servers of src/server behind it.
use distplusplus.Base.{ℕ, ◌+◌, ◌≤◌, ◌<◌, ◌==◌, ◌≡◌, ◌∙◌, true, false, List, [], some, ok}
use distplusplus.Base.Text.{Text}
use distplusplus.Base.FilePath.{stem}
use distplusplus.Common.Status.{Status}
use distplusplus.Common.Compression.{compress, decompress}
use distplusplus.Common.Compression.RoundTrip.{IsLossless}
use distplusplus.Common.Process.{ProcessResult}
use distplusplus.Common.Tempfile.{Temps}
use distplusplus.Server.Jobs.{Server, seconds}
use distplusplus.Server.Requests.{CompileRequest, CompileAnswer, check_compiler_allowed}
use distplusplus.Server.Distribute.{Host, Outcome}
use distplusplus.Server.Distribute.Endures.{IsReady}
use distplusplus.Client.Parser.{Parser}
use distplusplus.Client.Command.{compiler_name, preprocessor_args, job_args}
use distplusplus.Client.Sending.{Slot}
use distplusplus.Client.Input.{stdin_empty}
use distplusplus.Client.Main.{System, Exit, preprocess, main, is_wrapper}
use distplusplus.Client.Main.Completes.{output_of, main_completes}
use distplusplus.Agreement.EndToEnd.{IsCompiled}
use distplusplus.Agreement.Fit.{IsSendable}
use distplusplus.Agreement.Vacancy.{first_free, IsVacant}
use distplusplus.Agreement.Served.{Keeps, sent}
use distplusplus.Agreement.Compiles.{request_in, job_compiles}

module _ (state : ℕ → Text → Server) (uuid : ℕ → Text → Text) (time : ℕ → Text → ℕ) (now : ℕ → ℕ)
    (servers : List Text) (before : ℕ) (later : Text → Server) (host : Text → Host) (peer : Text)
    (temps : Text → Temps) (deliver : Outcome → Status × CompileAnswer) (sys : System)
    (program : Text) (args : List Text) (p : Parser) (cwd content : Text) where
  abbrev pub timeout : ℕ
  timeout = sys.config.reservation_attempt_timeout

  abbrev pub compiler_asked : Text
  compiler_asked = compiler_name sys.build_target (stem program)

  abbrev pub job_sent : Slot → CompileRequest
  job_sent slot =
      request_in state uuid time now servers before timeout later host peer temps deliver sys.files
        sys.fuel args sys.build_target program p sys.zstd sys.config.compression_type
        sys.config.compression_level [] content cwd slot

  -- If the client's parse makes a job that it can send, called by the compiler's name and with stdin
  -- empty, the preprocessor succeeds and its output is compressed, `send` has the servers behind it,
  -- every host has the client's filters, which are lossless, allows the compiler and is ready for the
  -- request, in pass `d`, which `fuel` is above, a server has a free slot, until then the time is not
  -- up, servers keep their reservations until the job comes and gRPC delivers an answer with its
  -- status, then `main` ends remotely, with the exit code of one run of the compiler of a host
  -- which was free in a pass up to `d`, on the preprocessed source with the job's arguments as the
  -- server filtered them; the text that this run left in its output file, which is what the answer's
  -- content decompresses to, is written to the client's output file unless that content is empty.
  pub main_compiles :
      (d fuel : ℕ) (free : Text) (pre : ProcessResult)
      → IsSendable sys.files sys.fuel args sys.build_target p
      → is_wrapper sys program ≡ false
      → (stdin_empty sys.stdin).0 ≡ true
      → preprocess sys compiler_asked (preprocessor_args sys.build_target (stem program) p) ≡ ok pre
      → (pre.return_code == 0) ≡ true
      → compress sys.zstd sys.config.compression_type sys.config.compression_level pre.stdout
        ≡ ok content
      → ((compiler : Text) (job : List Text) (file data_text : Text)
          → sys.send compiler job file data_text
            ≡ sent state uuid time now servers before timeout later host peer temps deliver compiler
                job file data_text sys.config.compression_type cwd fuel)
      → IsLossless sys.zstd
      → ((server : Text) → (host server).zstd ≡ sys.zstd)
      → ((server : Text)
          → check_compiler_allowed (host server).directory compiler_asked ≡ some true)
      → ((slot : Slot) → IsReady (host slot.server) (later slot.server) peer (job_sent slot))
      → d < fuel
      → ((j : ℕ) → 0 ≤ j → j < 0 + d → now j < before + seconds timeout)
      → first_free (state (0 + d)) servers ≡ some free
      → Keeps state uuid time now servers before timeout later (0 + d)
      → ((st : Status) (a : CompileAnswer) → deliver (Outcome.returns st (some a)) ≡ (st, a))
      → (slot : Slot) × IsVacant state uuid time now servers before timeout 0 (0 + d) slot
        × (answer : CompileAnswer) × (text : Text) × (main sys program args
            ≡ Exit.remote answer.return_code (output_of p answer text))
        × (decompress sys.zstd answer.output_file.compression_type answer.output_file.content
            ≡ ok text)
        × IsCompiled
            (host slot.server)
            compiler_asked
            (job_args sys.build_target (stem program) p)
            pre.stdout
            answer.return_code
            text
  main_compiles d fuel free pre job direct empty ran good packed sends lossless same allowed ready
        enough early vacant keeps delivers =
      let (slot, v, answer, text, e, unpacked, made) =
        job_compiles state uuid time now servers before timeout later host peer temps deliver
          sys.files sys.fuel args sys.build_target program p sys.zstd sys.config.compression_type
          sys.config.compression_level pre.stdout content cwd d fuel free job lossless same allowed
          ready packed enough early vacant keeps delivers in
      (
        slot,
        v,
        answer,
        text,
        main_completes sys program args p pre content answer text direct empty job.parsed
            job.allowed ran good packed (sends _ _ _ _ ∙ e) unpacked,
        unpacked,
        made,
      )
