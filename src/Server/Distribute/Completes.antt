-- ===== src/Server/Distribute/Completes.antt =====
-- Which requests `Distribute` answers.
use distplusplus.Base.{◌≡◌, ◌≢◌, refl, ap, ◌∙◌, Bool, true, false, List, some, none, ok, arith}
use distplusplus.Base.Text.{Text, is_empty}
use distplusplus.Base.FileSystem.{Files, read}
use distplusplus.Common.Status.{status_ok}
use distplusplus.Common.Compression.{decompress}
use distplusplus.Common.Process.{ProcessResult}
use distplusplus.Common.Tempfile.{Temps, Tempfile, destroy}
use distplusplus.Server.Parser.{parse}
use distplusplus.Server.Reservations.Members.{is_reserved}
use distplusplus.Server.Jobs.{Server}
use distplusplus.Server.Requests.{
  CompileRequest, CompileAnswer, sanitize_request, sanitize_file, is_basename,
  check_compiler_allowed,
}
use distplusplus.Server.Distribute.{
  Host, Flow, Outcome, left, leave, caught, from_result, compile, parse_and_compile, with_output,
  with_files, decompressed, process, distribute,
}
use distplusplus.Server.Distribute.Made.{input_made, output_made}
use distplusplus.Server.Distribute.Cleanup.{process-Restores}
use distplusplus.Server.Distribute.Crashes.{process-checked}
use distplusplus.Server.Distribute.Endures.{IsReady}
use distplusplus.Server.Distribute.Slots.{taken, distribute-listed}

-- The scope has returned an answer with status OK, or a destructor has thrown since.
abbrev IsAnswered : Flow → Type 0
IsAnswered (Flow.returns st (some a)) = st ≡ status_ok
IsAnswered (Flow.returns st none) = ⊥
IsAnswered Flow.throws = ⊥
IsAnswered Flow.dead = Unit

left-IsAnswered : (f : Flow) (d : Bool × Temps) → IsAnswered f → IsAnswered (left f d).0
unfolding left
left-IsAnswered f (true, t) l = l
left-IsAnswered f (false, t) l = tt

leave-IsAnswered :
    (h : Host) (file : Tempfile) (r : Flow × Temps) → IsAnswered r.0 → IsAnswered (leave h file r).0
unfolding leave
leave-IsAnswered h file (Flow.dead, t) l = tt
leave-IsAnswered h file (Flow.throws, t) l = absurd l
leave-IsAnswered h file (Flow.returns st a, t) l =
    left-IsAnswered (Flow.returns st a) (destroy h.denied file t) l

answered-caught :
    (h : Host) (r : Flow × Temps)
    → IsAnswered r.0
    → r.0 ≢ Flow.dead
    → (answer : CompileAnswer) × ((caught h r).0 ≡ Outcome.returns status_ok (some answer))
unfolding caught
answered-caught h (Flow.dead, t) a alive = absurd (alive refl)
answered-caught h (Flow.throws, t) a alive = absurd a
answered-caught h (Flow.returns st none, t) a alive = absurd a
answered-caught h (Flow.returns st (some answer), t) a alive =
    (answer, ap (λ s. Outcome.returns s (some answer)) a)

module _ (h : Host) (peer : Text) (request : CompileRequest) where
  -- A request that has nothing to be refused for.
  pub record IsFit : Type 0 where
    pub clean : sanitize_request request ≡ true
    pub named : is_empty request.input_file.name ≡ false
    pub allowed : check_compiler_allowed h.directory request.compiler ≡ some true
    pub data_text : Text
    pub read_in :
        decompress h.zstd request.input_file.compression_type request.input_file.content
        ≡ ok data_text
    pub args : List Text
    pub parsed : parse request.argument ≡ ok args

  module _ (s : Server) (ready : IsReady h s peer request) (fit : IsFit) where
    from_result-IsAnswered :
        (output : Text) (t : Temps) (r : ProcessResult × Files)
        → IsAnswered (from_result h s output t r).0
    unfolding from_result
    from_result-IsAnswered output t (result, after) =
        let (out, f) = ready.packs (read output after) in rw (f, from_result) refl

    parse_and_compile-IsAnswered :
        (input output : Text) (t : Temps)
        → IsAnswered (parse_and_compile h s request input output t).0
    unfolding parse_and_compile compile
    parse_and_compile-IsAnswered input output t =
        let (r, g) = ready.starts input output fit.args t.files in
        rw (fit.parsed, parse_and_compile, g, compile) (from_result-IsAnswered output t r)

    fit_base : is_basename request.input_file.name ≡ true
    unfolding sanitize_request sanitize_file
    fit_base = ground (arith, fit.clean)

    with_output-IsAnswered :
        (input : Text) (t : Temps) → IsAnswered (with_output h s peer request input t).0
    unfolding with_output
    with_output-IsAnswered input t =
        let (made, f) = output_made h.mkdtemp ready.makes peer request.input_file.name t fit_base in
        rw (f, with_output)
          (leave-IsAnswered h made.0 _ (parse_and_compile-IsAnswered input made.0.path made.1))

    with_files-IsAnswered : (t : Temps) → IsAnswered (with_files h s peer request fit.data_text t).0
    unfolding with_files
    with_files-IsAnswered t =
        let (made, f) =
          input_made h.mkdtemp ready.makes peer request.input_file.name fit.data_text t fit.named
            fit_base in
        rw (f, with_files) (leave-IsAnswered h made.0 _ (with_output-IsAnswered made.0.path made.1))

    process-IsAnswered : (t : Temps) → IsAnswered (process h s peer request t).0
    unfolding decompressed
    process-IsAnswered t =
        rw (process-checked h s peer request t fit.clean fit.allowed, fit.read_in)
          (with_files-IsAnswered t)

  -- If the uuid is reserved, the request has clean names, an allowed compiler, content that can be
  -- read, a file name and arguments that the parser accepts, and the temporary directories can be
  -- made, are new and are let be removed, the compiler starts and writes no file but its output, and
  -- the server's compressor does not fail, then `Distribute` returns OK with an answer.
  pub distribute_completes :
      (s : Server) (t : Temps)
      → is_reserved request.uuid s.reservations ≡ true
      → IsReady h s peer request
      → IsFit
      → (answer : CompileAnswer) × ((distribute h peer request s t).1
          ≡ Outcome.returns status_ok (some answer))
  distribute_completes s t listed ready fit =
      let (answer, e) =
        answered-caught h _ (process-IsAnswered s' ready' fit t)
          (process-Restores h ready.orderly s' peer request t).0 in
      (answer, ap (λ x. x.1) (distribute-listed h peer request s t listed) ∙ e)
    where
      s' : Server
      s' = taken h peer request s

      ready' : IsReady h s' peer request
      ready' = record {
        orderly = ready.orderly;
        makes = ready.makes;
        starts = ready.starts;
        packs = ready.packs;
      }
