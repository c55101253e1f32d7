-- ===== src/Server/Distribute/Answers.antt =====
-- What an answer of `Distribute` rests on.
use distplusplus.Base.{
  check_cases, ◌≡◌, refl, ap, sym, ◌∙◌, Bool, true, false, Option, List, [], ◌++◌, some, Result, ok,
  err, Bool-cases, Result-cases, inl, inr,
}
use distplusplus.Base.Text.{Text, codes}
use distplusplus.Base.FileSystem.{Files, read}
use distplusplus.Common.Status.{Status}
use distplusplus.Common.Compression.{CompressionError, decompress, make_compressor}
use distplusplus.Common.Compression.RoundTrip.{IsLossless, decompress-make_compressor}
use distplusplus.Common.Process.{ProcessResult}
use distplusplus.Common.Tempfile.{Temps, Tempfile, new_tempfile, destroy}
use distplusplus.Server.Parser.{parse}
use distplusplus.Server.Reservations.Members.{is_reserved}
use distplusplus.Server.Jobs.{Server}
use distplusplus.Server.Requests.{
  CompileRequest, CompileAnswer, sanitize_request, check_compiler_allowed,
}
use distplusplus.Server.Distribute.{
  Host, Flow, Outcome, delimited, left, leave, caught, from_result, compiler_process, compile,
  parse_and_compile, with_output, with_files, decompressed, process, distribute,
}
use distplusplus.Server.Distribute.Slots.{taken, distribute-listed, distribute-absent}

same_answer :
    {st st' : Status} {a b : CompileAnswer}
    → Flow.returns st (some a) ≡ Flow.returns st' (some b)
    → a ≡ b
same_answer e = cc

-- A scope that returns has returned before its file was destroyed.
left_inv :
    (f : Flow) (d : Bool × Temps) (st : Status) (a : Option CompileAnswer)
    → (left f d).0 ≡ Flow.returns st a
    → f ≡ Flow.returns st a
unfolding left
left_inv f (true, t) st a h = h
left_inv f (false, t) st a h = cc

pub leave_inv :
    (h : Host) (file : Tempfile) (r : Flow × Temps) (st : Status) (a : Option CompileAnswer)
    → (leave h file r).0 ≡ Flow.returns st a
    → r.0 ≡ Flow.returns st a
unfolding leave
leave_inv h file (Flow.dead, t) st a e = e
leave_inv h file (Flow.throws, t) st a e = left_inv _ (destroy h.denied file t) st a e
leave_inv h file (Flow.returns st' a', t) st a e = left_inv _ (destroy h.denied file t) st a e

pub caught_inv :
    (h : Host) (r : Flow × Temps) (st : Status) (a : Option CompileAnswer)
    → (caught h r).0 ≡ Outcome.returns st a
    → r.0 ≡ Flow.returns st a
unfolding caught
caught_inv h (Flow.dead, t) st a e = cc
caught_inv h (Flow.throws, t) st a e = cc
caught_inv h (Flow.returns st' a', t) st a e = cc

module _ (h : Host) (s : Server) (peer : Text) (request : CompileRequest)
    (answer : CompileAnswer) where
  -- One run of the compiler, on the request's data and its filtered arguments: `before` is the state
  -- once the two temporary files are there, `after` the files that the run leaves.
  pub record IsRun (t : Temps) : Type 0 where
    pub data_text : Text
    pub input : Tempfile
    pub middle : Temps
    pub output : Tempfile
    pub before : Temps
    pub args : List Text
    pub result : ProcessResult
    pub after : Files
    pub read_in :
        decompress h.zstd request.input_file.compression_type request.input_file.content
        ≡ ok data_text
    pub parsed : parse request.argument ≡ ok args
    pub sources :
        new_tempfile h.mkdtemp request.input_file.name (delimited peer) data_text t
        ≡ ok (input, middle)
    pub objects :
        new_tempfile h.mkdtemp (request.input_file.name ++ codes ".o") (delimited peer) [] middle
        ≡ ok (output, before)
    pub ran :
        compiler_process h request.compiler input.path output.path args before.files
        ≡ ok (result, after)
    pub code : answer.return_code ≡ result.return_code
    pub stdout : answer.stdout ≡ result.stdout
    pub stderr : answer.stderr ≡ result.stderr
    pub content :
        make_compressor h.zstd s.compressor_factory (read output.path after)
        ≡ ok answer.output_file.content
    pub type : answer.output_file.compression_type ≡ s.compressor_factory.compression_type

  abbrev Answers : Flow × Temps → Type 0
  Answers r = (st : Status) × (r.0 ≡ Flow.returns st (some answer))

  module _ (t : Temps) (data_text : Text)
      (read_in : decompress h.zstd request.input_file.compression_type request.input_file.content
        ≡ ok data_text) where
    module _ (input output : Tempfile) (middle before : Temps)
        (sources : new_tempfile h.mkdtemp request.input_file.name (delimited peer) data_text t
          ≡ ok (input, middle))
        (objects : new_tempfile h.mkdtemp
            (request.input_file.name ++ codes ".o")
            (delimited peer)
            []
            middle
          ≡ ok (output, before)) where
      from_result-IsRun :
          (args : List Text) (result : ProcessResult) (after : Files)
          → parse request.argument ≡ ok args
          → compiler_process h request.compiler input.path output.path args before.files
            ≡ ok (result, after)
          → Answers (from_result h s output.path before (result, after))
          → IsRun t
      unfolding from_result
      from_result-IsRun args result after parsed ran (st, e) =
          elim (Result-cases
            (make_compressor h.zstd s.compressor_factory (read output.path after))) [
              | inl (w, f) ↦ absurd (cc (rw (f, from_result) at e))
              | inr (content, f) ↦
                  let same = same_answer (rw (f, from_result) at e) in
                  record {
                    data_text = data_text;
                    input = input;
                    middle = middle;
                    output = output;
                    before = before;
                    args = args;
                    result = result;
                    after = after;
                    read_in = read_in;
                    parsed = parsed;
                    sources = sources;
                    objects = objects;
                    ran = ran;
                    code = sym (ap (λ (a : CompileAnswer). a.return_code) same);
                    stdout = sym (ap (λ (a : CompileAnswer). a.stdout) same);
                    stderr = sym (ap (λ (a : CompileAnswer). a.stderr) same);
                    content = f ∙ ap ok (ap (λ (a : CompileAnswer). a.output_file.content) same);
                    type = sym (ap (λ (a : CompileAnswer). a.output_file.compression_type) same);
                  }
            ]

      parse_and_compile-IsRun :
          Answers (parse_and_compile h s request input.path output.path before) → IsRun t
      unfolding parse_and_compile compile
      parse_and_compile-IsRun (st, e) = elim (Result-cases (parse request.argument)) [
        | inl (w, f) ↦ cc (rw (f, parse_and_compile) at e)
        | inr (args, f) ↦
            elim (Result-cases
              (compiler_process h request.compiler input.path output.path args before.files)) [
                | inl (w, g) ↦ cc (rw (f, parse_and_compile, g, compile) at e)
                | inr ((result, after), g) ↦
                    from_result-IsRun args result after f g
                      (st, rw (f, parse_and_compile, g, compile) at e)
              ]
      ]

    with_output-IsRun :
        (input : Tempfile) (middle : Temps)
        → new_tempfile h.mkdtemp request.input_file.name (delimited peer) data_text t
          ≡ ok (input, middle)
        → Answers (with_output h s peer request input.path middle)
        → IsRun t
    unfolding with_output
    with_output-IsRun input middle f (st, e) =
        elim (Result-cases (
          new_tempfile h.mkdtemp (request.input_file.name ++ codes ".o") (delimited peer) []
            middle)) [
              | inl (w, g) ↦ cc (rw (g, with_output) at e)
              | inr ((output, before), g) ↦
                  parse_and_compile-IsRun input output middle before f g
                    (st, leave_inv h output _ st (some answer) (rw (g, with_output) at e))
            ]

    with_files-IsRun : Answers (with_files h s peer request data_text t) → IsRun t
    unfolding with_files
    with_files-IsRun (st, e) =
        elim (Result-cases
          (new_tempfile h.mkdtemp request.input_file.name (delimited peer) data_text t)) [
            | inl (w, f) ↦ cc (rw (f, with_files) at e)
            | inr ((input, middle), f) ↦
                with_output-IsRun input middle f
                  (st, leave_inv h input _ st (some answer) (rw (f, with_files) at e))
          ]

  decompressed-IsRun :
      (t : Temps) (r : Result CompressionError Text)
      → decompress h.zstd request.input_file.compression_type request.input_file.content ≡ r
      → Answers (decompressed h s peer request r t)
      → IsRun t
  unfolding decompressed
  decompressed-IsRun t (ok data_text) read_in a = with_files-IsRun t data_text read_in a
  decompressed-IsRun t (err CompressionError.stream_failure) read_in (st, e) = cc
  decompressed-IsRun t (err CompressionError.runtime_error) read_in (st, e) = cc
  decompressed-IsRun t (err CompressionError.invalid_argument) read_in (st, e) = cc

  -- An answer comes only from a request that passed all checks.
  process-IsRun :
      (t : Temps)
      → Answers (process h s peer request t)
      → (sanitize_request request ≡ true)
        × (check_compiler_allowed h.directory request.compiler ≡ some true)
        × IsRun t
  unfolding process
  process-IsRun t (st, e) = elim (Bool-cases (sanitize_request request)) [
    | inr bad ↦ cc (rw bad at e)
    | inl good ↦ elim (check_cases (check_compiler_allowed h.directory request.compiler)) [
      | inr (inl bad) ↦ cc (rw (good, bad) at e)
      | inr (inr broken) ↦ cc (rw (good, broken) at e)
      | inl allowed ↦ (good, allowed, decompressed-IsRun t _ refl (st, rw (good, allowed) at e))
    ]
  ]

  pub answer_decompresses :
      (t : Temps)
      → IsLossless h.zstd
      → (r : IsRun t)
      → decompress h.zstd answer.output_file.compression_type answer.output_file.content
        ≡ ok (read r.output.path r.after)
  answer_decompresses t lossless r =
      rw r.type (decompress-make_compressor h.zstd lossless s.compressor_factory _ _ r.content)

module _ (h : Host) (peer : Text) (request : CompileRequest) (s : Server) (t : Temps) where
  -- If `Distribute` returns an answer, the uuid was reserved, the names passed their check and the
  -- compiler was allowed, and the answer is that of one run of the compiler on the decompressed
  -- input, the arguments that `parse` left and the two temporary files.
  pub distribute_answers :
      (st : Status) (answer : CompileAnswer)
      → (distribute h peer request s t).1 ≡ Outcome.returns st (some answer)
      → (is_reserved request.uuid s.reservations ≡ true)
        × (sanitize_request request ≡ true)
        × (check_compiler_allowed h.directory request.compiler ≡ some true)
        × IsRun h (taken h peer request s) peer request answer t
  distribute_answers st answer e = elim (Bool-cases (is_reserved request.uuid s.reservations)) [
    | inr no_uuid ↦ cc (ap (λ o. o.1) (distribute-absent h peer request s t no_uuid))
    | inl listed ↦
        let same = ap (λ o. o.1) (distribute-listed h peer request s t listed) in
        let (clean, allowed, r) =
          process-IsRun h (taken h peer request s) peer request answer t
            (st, caught_inv h _ st (some answer) (sym same ∙ e)) in
        (listed, clean, allowed, r)
  ]
