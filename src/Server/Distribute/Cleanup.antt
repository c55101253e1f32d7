-- ===== src/Server/Distribute/Cleanup.antt =====
-- What `Distribute` leaves of its temporary files.
use distplusplus.Base.{
  check_cases, ◌≡◌, ◌≢◌, refl, ap, sym, ◌∙◌, List, [], ◌++◌, Option, none, Result, ok, err,
  Bool-cases, Result-cases, inl, inr,
}
use distplusplus.Base.Text.{Text, codes}
use distplusplus.Base.FileSystem.{Node, Files, put, read}
use distplusplus.Common.Status.{Status}
use distplusplus.Common.Compression.{CompressionError, make_compressor}
use distplusplus.Common.Process.{ProcessResult}
use distplusplus.Common.Tempfile.{Temps, Tempfile, new_tempfile}
use distplusplus.Common.Tempfile.Lifetime.{
  MakesFresh, IsNew, new_tempfile-IsNew, put-IsNew, destroy-IsNew,
}
use distplusplus.Server.Parser.{parse}
use distplusplus.Server.Jobs.{Server}
use distplusplus.Server.Requests.{
  CompileRequest, CompileAnswer, sanitize_request, check_compiler_allowed,
}
use distplusplus.Server.Distribute.{
  Host, Flow, Outcome, delimited, left, leave, caught, from_result, compiler_process, compile,
  parse_and_compile, with_output, with_files, decompressed, process, distribute,
}
use distplusplus.Server.Distribute.Slots.{taken, distribute-listed, distribute-absent}
use distplusplus.Server.Reservations.Members.{is_reserved}

-- The compiler writes no file but the one that it is told to.
abbrev pub IsTidy : Host → Type 0
IsTidy h =
    (compiler input output : Text) (args : List Text) (before after : Files)
    (result : ProcessResult)
    → compiler_process h compiler input output args before ≡ ok (result, after)
    → (v : Text) × (after ≡ put output (Node.file v) before)

-- A host whose `mkdtemp` keeps its promise, that refuses no removal, and whose compiler is tidy.
pub record IsOrderly (h : Host) : Type 0 where
  pub promise : MakesFresh h.mkdtemp
  pub allowed : (p : Text) → h.denied p ≡ none
  pub tidy : IsTidy h

-- No destructor throws, and of the files only the text of `output` can have changed.
abbrev Writes : Text → Temps → Flow × Temps → Type 0
Writes output t r =
    (r.0 ≢ Flow.dead) × ((v : Text) × (r.1.files ≡ put output (Node.file v) t.files))

abbrev pub Restores : Temps → Flow × Temps → Type 0
Restores t r = (r.0 ≢ Flow.dead) × (r.1.files ≡ t.files)

module _ (h : Host) (o : IsOrderly h) where
  -- The end of a scope takes the file and its directory away, and keeps how the scope was left.
  leave-Restores :
      (s : Temps) (content : Text) (t : Tempfile) (s₁ : Temps) (r : Flow × Temps)
      → IsNew s content (t, s₁)
      → Writes t.path s₁ r
      → Restores s (leave h t r)
  unfolding leave left
  leave-Restores s content t s₁ (Flow.dead, s₂) new (alive, w) = absurd (alive refl)
  leave-Restores s content t s₁ (Flow.throws, s₂) new (alive, (v, e)) =
      rw (destroy-IsNew h.denied o.allowed s content t s₁ s₂ v new e, left) (alive, refl)
  leave-Restores s content t s₁ (Flow.returns st a, s₂) new (alive, (v, e)) =
      rw (destroy-IsNew h.denied o.allowed s content t s₁ s₂ v new e, left) (alive, refl)

  module _ (s : Server) (peer : Text) (request : CompileRequest) where
    from_result-files :
        (output : Text) (t : Temps) (result : ProcessResult) (after : Files)
        → ((from_result h s output t (result, after)).0 ≢ Flow.dead)
          × ((from_result h s output t (result, after)).1.files ≡ after)
    unfolding from_result
    from_result-files output t result after =
        elim (Result-cases (make_compressor h.zstd s.compressor_factory (read output after))) [
          | inl (w, f) ↦ rw (f, from_result) ((λ e. cc), refl)
          | inr (content, f) ↦ rw (f, from_result) ((λ e. cc), refl)
        ]

    compile-Writes :
        (input output : Text) (t : Temps) (args : List Text) (v : Text)
        → t.files ≡ put output (Node.file v) t.files
        → Writes output t (compile h s request.compiler input output t args)
    unfolding compile
    compile-Writes input output t args v same =
        elim (Result-cases (compiler_process h request.compiler input output args t.files)) [
          | inl (w, f) ↦ rw (f, compile) ((λ e. cc), (v, same))
          | inr ((result, after), f) ↦
              let (v', e) = o.tidy request.compiler input output args t.files after result f in
              let (alive, files) = from_result-files output t result after in
              rw (f, compile) (alive, (v', files ∙ e))
        ]

    parse_and_compile-Writes :
        (input output : Text) (t : Temps) (v : Text)
        → t.files ≡ put output (Node.file v) t.files
        → Writes output t (parse_and_compile h s request input output t)
    unfolding parse_and_compile
    parse_and_compile-Writes input output t v same = elim (Result-cases (parse request.argument)) [
      | inl (w, f) ↦ rw (f, parse_and_compile) ((λ e. cc), (v, same))
      | inr (args, f) ↦ rw (f, parse_and_compile) (compile-Writes input output t args v same)
    ]

    with_output-Restores :
        (input : Text) (t : Temps) → Restores t (with_output h s peer request input t)
    unfolding with_output
    with_output-Restores input t =
        elim (Result-cases
          (new_tempfile h.mkdtemp (request.input_file.name ++ codes ".o") (delimited peer) [] t)) [
            | inl (w, f) ↦ rw (f, with_output) ((λ e. cc), refl)
            | inr ((output, t'), f) ↦
                let new = new_tempfile-IsNew h.mkdtemp o.promise _ _ [] t (output, t') f in
                rw (f, with_output)
                  (leave-Restores t [] output t' _ new (
                    parse_and_compile-Writes input output.path t' []
                      (put-IsNew t [] output t' new)))
          ]

    with_files-Restores :
        (data_text : Text) (t : Temps) → Restores t (with_files h s peer request data_text t)
    unfolding with_files
    with_files-Restores data_text t =
        elim (Result-cases
          (new_tempfile h.mkdtemp request.input_file.name (delimited peer) data_text t)) [
            | inl (w, f) ↦ rw (f, with_files) ((λ e. cc), refl)
            | inr ((input, t'), f) ↦
                let new = new_tempfile-IsNew h.mkdtemp o.promise _ _ data_text t (input, t') f in
                let (alive, files) = with_output-Restores input.path t' in
                rw (f, with_files)
                  (leave-Restores t data_text input t' _ new
                    (alive, (data_text, files ∙ put-IsNew t data_text input t' new)))
          ]

    decompressed-Restores :
        (r : Result CompressionError Text) (t : Temps)
        → Restores t (decompressed h s peer request r t)
    unfolding decompressed
    decompressed-Restores (ok data_text) t = with_files-Restores data_text t
    decompressed-Restores (err CompressionError.stream_failure) t = ((λ e. cc), refl)
    decompressed-Restores (err CompressionError.runtime_error) t = ((λ e. cc), refl)
    decompressed-Restores (err CompressionError.invalid_argument) t = ((λ e. cc), refl)

    pub process-Restores : (t : Temps) → Restores t (process h s peer request t)
    unfolding process
    process-Restores t = elim (Bool-cases (sanitize_request request)) [
      | inr bad ↦ rw (bad, process) ((λ e. cc), refl)
      | inl good ↦ elim (check_cases (check_compiler_allowed h.directory request.compiler)) [
        | inr (inl bad) ↦ rw (good, process, bad) ((λ e. cc), refl)
        | inr (inr broken) ↦ rw (good, process, broken) ((λ e. cc), refl)
        | inl allowed ↦ rw (good, process, allowed) (decompressed-Restores _ t)
      ]
    ]

  caught-Restores :
      (t : Temps) (r : Flow × Temps) (st : Status) (a : Option CompileAnswer)
      → Restores t r
      → (caught h r).0 ≡ Outcome.returns st a
      → (caught h r).1.files ≡ t.files
  unfolding caught
  caught-Restores t (Flow.dead, t') st a (alive, files) e = absurd (alive refl)
  caught-Restores t (Flow.throws, t') st a (alive, files) e = cc
  caught-Restores t (Flow.returns st' a', t') st a (alive, files) e = files

  -- If `mkdtemp` makes new directories, no removal is refused and the compiler writes no file but
  -- its output, then `Distribute` leaves, whatever status it returns, the files as they were before.
  pub distribute_cleans :
      (peer : Text) (request : CompileRequest) (s : Server) (t : Temps) (st : Status)
      (a : Option CompileAnswer)
      → (distribute h peer request s t).1 ≡ Outcome.returns st a
      → (distribute h peer request s t).2.files ≡ t.files
  distribute_cleans peer request s t st a e =
      elim (Bool-cases (is_reserved request.uuid s.reservations)) [
        | inr no_uuid ↦ ap (λ x. x.2.files) (distribute-absent h peer request s t no_uuid)
        | inl listed ↦
            let same = distribute-listed h peer request s t listed in
            ap (λ x. x.2.files) same
            ∙ caught-Restores t _ st a (process-Restores (taken h peer request s) peer request t)
                (sym (ap (λ x. x.1) same) ∙ e)
      ]
