-- ===== src/Server/Distribute.antt =====
-- src/server/server.cpp: `Distribute`. What the handler asks of the host is a parameter: the zstd
-- filters, the directories, `mkdtemp`, the search for a program, the start of the compiler with what
-- it does to the files, and the removals that the system refuses.
pub mod Slots
pub mod Made
pub mod Completes
pub mod Answers
pub mod Crashes
pub mod Endures
pub mod Cleanup
pub mod Leftover
use distplusplus.Base.{
  ℕ, ◌==◌, Bool, true, false, not, List, [], ◌∷◌, ◌++◌, map, Option, some, none, Result, ok, err,
  if◌then◌else◌,
}
use distplusplus.Base.Text.{Text, codes}
use distplusplus.Common.Status.{Status, StatusCode, status, status_ok}
use distplusplus.Common.Compression.{
  CompressionType, CompressionError, Zstd, make_compressor, decompress,
}
use distplusplus.Base.FileSystem.{Files, read}
use distplusplus.Common.ScopeGuard.{scope_guard, run_guard}
use distplusplus.Common.Process.{Processes, ProcessResult, ProcessError, process_helper}
use distplusplus.Common.Tempfile.{
  TempfileError, Temps, Tempfile, new_tempfile, destroy, tempfile_cleaner,
}
use distplusplus.Server.Parser.{parse}
use distplusplus.Server.Jobs.{Server, take_reservation, release_job}
use distplusplus.Server.Requests.{
  File, CompileRequest, CompileAnswer, Listing, sanitize_request, check_compiler_allowed,
}

pub record Host : Type 0 where
  pub zstd : Zstd
  pub directory : Text → Listing
  pub mkdtemp : Text → Files → Result ℕ Text
  -- the errno of a removal that the system refuses
  pub denied : Text → Option ℕ
  pub search_path : Text → Text
  pub processes : Processes
  -- from the files, the program, its arguments and its stdin
  pub launch : Files → Text → List Text → Text → Option (ProcessResult × Files)
  -- the text of a decompressor's failure
  pub failure_text : Text

-- Where a scope of the handler ends: it returns, an exception is on its way out, or a destructor has
-- thrown and the process is lost.
pub data Flow : Type 0 where
  returns : Status → Option CompileAnswer → Flow
  throws dead : Flow

-- A handler returns a status, or the process is terminated.
pub data Outcome : Type 0 where
  returns : Status → Option CompileAnswer → Outcome
  terminates : Outcome

-- `std::ranges::replace(clientIPDelimited, '/', '-')`.
unfoldable pub delimited : Text → Text
delimited = map (λ c. if c == b'/' then b'-' else c)

unfoldable pub left : Flow → Bool × Temps → Flow × Temps
left f (true, t) = (f, t)
left f (false, t) = (Flow.dead, t)

module _ (h : Host) where
  -- The end of a temporary file's scope, whichever way it is left.
  unfoldable pub leave : Tempfile → Flow × Temps → Flow × Temps
  unfolding left
  leave file (Flow.dead, t) = (Flow.dead, t)
  leave file (Flow.throws, t) = left Flow.throws (destroy h.denied file t)
  leave file (Flow.returns st a, t) = left (Flow.returns st a) (destroy h.denied file t)

  -- The handlers of `Distribute`: `exceptionAbortHandler` terminates the process, as a destructor that
  -- throws does, and with it runs `tempfileCleaner`.
  unfoldable pub caught : Flow × Temps → Outcome × Temps
  caught (Flow.returns st a, t) = (Outcome.returns st a, t)
  caught (Flow.throws, t) = (Outcome.terminates, tempfile_cleaner h.denied t)
  caught (Flow.dead, t) = (Outcome.terminates, tempfile_cleaner h.denied t)

  -- From the run's result on.
  unfoldable pub from_result : Server → Text → Temps → ProcessResult × Files → Flow × Temps
  from_result s output t (result, files) =
      elim (make_compressor h.zstd s.compressor_factory (read output files)) [
        | err e ↦ (Flow.throws, record t { files = files })
        | ok content ↦ (
          Flow.returns status_ok (
              some (record {
                return_code = result.return_code;
                stdout = result.stdout;
                stderr = result.stderr;
                output_file = record {
                  name = output;
                  compression_type = s.compressor_factory.compression_type;
                  content = content;
                };
                current_load = 0;
              })),
          record t { files = files },
        )
      ]

  -- The run of the compiler.
  unfoldable pub compiler_process :
      Text → Text → Text → List Text → Files → Result ProcessError (ProcessResult × Files)
  compiler_process compiler input output args files =
      process_helper h.processes (h.launch files) (h.search_path compiler)
        (args ++ (codes "-o" ∷ output ∷ input ∷ [])) []

  unfoldable pub compile : Server → Text → Text → Text → Temps → List Text → Flow × Temps
  unfolding from_result compiler_process
  compile s compiler input output t args =
      elim (compiler_process compiler input output args t.files) [
        | err e ↦ (Flow.throws, t)
        | ok result ↦ from_result s output t result
      ]

  -- From the parser on.
  unfoldable pub parse_and_compile : Server → CompileRequest → Text → Text → Temps → Flow × Temps
  unfolding compile
  parse_and_compile s request input output t = elim (parse request.argument) [
    | err what ↦ (
      Flow.returns
          (record {
            code = StatusCode.invalid_argument;
            message = codes "job aborted due to invalid arguments";
            details = what;
          })
          none,
      t,
    )
    | ok args ↦ compile s request.compiler input output t args
  ]

  -- From the output file on.
  unfoldable pub with_output : Server → Text → CompileRequest → Text → Temps → Flow × Temps
  unfolding parse_and_compile delimited leave
  with_output s peer request input t =
      elim (new_tempfile h.mkdtemp (request.input_file.name ++ codes ".o") (delimited peer) [] t) [
        | err e ↦ (Flow.throws, t)
        | ok (output, t') ↦ leave output (parse_and_compile s request input output.path t')
      ]

  -- From the temporary files on.
  unfoldable pub with_files : Server → Text → CompileRequest → Text → Temps → Flow × Temps
  unfolding with_output delimited leave
  with_files s peer request data_text t =
      elim (new_tempfile h.mkdtemp request.input_file.name (delimited peer) data_text t) [
        | err e ↦ (Flow.throws, t)
        | ok (input, t') ↦ leave input (with_output s peer request input.path t')
      ]

  -- The decompressor; only a stream's failure is caught.
  unfoldable pub decompressed :
      Server → Text → CompileRequest → Result CompressionError Text → Temps → Flow × Temps
  unfolding with_files
  decompressed s peer request (ok data_text) t = with_files s peer request data_text t
  decompressed s peer request (err CompressionError.stream_failure) t = (
    Flow.returns
        (record {
          code = StatusCode.invalid_argument;
          message = codes "error in decompressor";
          details = h.failure_text;
        })
        none,
    t,
  )
  decompressed s peer request (err CompressionError.runtime_error) t = (Flow.throws, t)
  decompressed s peer request (err CompressionError.invalid_argument) t = (Flow.throws, t)

  -- What the handler does under its guard.
  unfoldable pub process : Server → Text → CompileRequest → Temps → Flow × Temps
  unfolding decompressed
  process s peer request t =
      if not (sanitize_request request)
      then (Flow.returns (status StatusCode.invalid_argument (codes "protocol violation")) none, t)
      else elim (check_compiler_allowed h.directory request.compiler) [
        | none ↦ (Flow.throws, t)
        | some false ↦ (
          Flow.returns
              (status StatusCode.invalid_argument
                (codes "error: compiler " ++ (request.compiler ++ codes " not in allow list")))
              none,
          t,
        )
        | some true ↦
            decompressed s peer request
              (decompress h.zstd request.input_file.compression_type request.input_file.content) t
      ]

  -- `Distribute`, with the server as the guard leaves it.
  unfoldable pub guarded : Text → CompileRequest → Temps → Server × Bool → Server × Outcome × Temps
  unfolding process caught scope_guard run_guard
  guarded peer request t (s, false) = (
    s,
    Outcome.returns
        (status StatusCode.failed_precondition
          (codes "error: uuid " ++ (request.uuid ++ codes " not in reservation list.")))
        none,
    t,
  )
  guarded peer request t (s, true) =
      let guard = scope_guard release_job in
      let (outcome, t') = caught (process s peer request t) in (run_guard guard s, outcome, t')

  unfoldable pub distribute : Text → CompileRequest → Server → Temps → Server × Outcome × Temps
  unfolding guarded
  distribute peer request s t = guarded peer request t (take_reservation request.uuid s)
