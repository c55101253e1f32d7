-- ===== src/Server/Distribute/Endures.antt =====
-- When `Distribute` does not end the server's process.
use distplusplus.Base.{
  check_cases, ◌≡◌, ◌≢◌, refl, ap, sym, ◌∙◌, subst, Bool, true, false, List, Option, some, none, ok,
  arith, Bool-cases, Result-cases, inl, inr, ◌⊎◌,
}
use distplusplus.Base.Text.{Text, is_empty}
use distplusplus.Base.FileSystem.{Files, read}
use distplusplus.Common.Compression.{CompressionType, Zstd, decompress, make_compressor, streamed}
use distplusplus.Common.Process.{ProcessResult}
use distplusplus.Common.Tempfile.{Temps, Tempfile, destroy}
use distplusplus.Server.Parser.{parse}
use distplusplus.Server.Reservations.Members.{is_reserved}
use distplusplus.Server.Jobs.{Server}
use distplusplus.Server.Requests.{
  CompileRequest, sanitize_request, sanitize_file, is_basename, check_compiler_allowed, IsReadable,
  readable-check,
}
use distplusplus.Server.Distribute.Made.{input_made, output_made}
use distplusplus.Server.Distribute.{
  Host, Flow, Outcome, left, leave, caught, from_result, compiler_process, compile,
  parse_and_compile, with_output, with_files, decompressed, process, distribute,
}
use distplusplus.Server.Distribute.Cleanup.{IsOrderly, process-Restores}
use distplusplus.Server.Distribute.Slots.{taken, distribute-listed, distribute-absent}
use distplusplus.Server.Distribute.Crashes.{process-checked}

-- A compression type for which the build has a filter.
abbrev pub IsKnown : Zstd → CompressionType → Type 0
IsKnown z CompressionType.none = Unit
IsKnown z CompressionType.zstd = z.enabled ≡ true
IsKnown z (CompressionType.other n) = ⊥

decompress_enabled :
    (z : Zstd) (input : Text)
    → z.enabled ≡ true
    → decompress z CompressionType.zstd input ≡ streamed (z.decompressor input)
unfolding decompress
decompress_enabled z input k = ground arith

left_throws : (f : Flow) (d : Bool × Temps) → (left f d).0 ≡ Flow.throws → f ≡ Flow.throws
unfolding left
left_throws f (true, t) h = h
left_throws f (false, t) h = cc

leave_throws :
    (h : Host) (file : Tempfile) (r : Flow × Temps)
    → (leave h file r).0 ≡ Flow.throws
    → r.0 ≡ Flow.throws
unfolding leave
leave_throws h file (Flow.dead, t) e = e
leave_throws h file (Flow.throws, t) e = refl
leave_throws h file (Flow.returns st a, t) e = left_throws _ (destroy h.denied file t) e

caught_terminates :
    (h : Host) (r : Flow × Temps)
    → (caught h r).0 ≡ Outcome.terminates
    → (r.0 ≡ Flow.throws) ⊎ (r.0 ≡ Flow.dead)
unfolding caught
caught_terminates h (Flow.dead, t) e = inr refl
caught_terminates h (Flow.throws, t) e = inl refl
caught_terminates h (Flow.returns st a, t) e = cc

module _ (h : Host) (s : Server) (peer : Text) (request : CompileRequest) where
  -- What `Distribute` needs of the host and of the compiler for this request.
  pub record IsReady : Type 0 where
    pub orderly : IsOrderly h
    pub makes : (t : Text) (files : Files) → (d : Text) × (h.mkdtemp t files ≡ ok d)
    pub starts :
        (input output : Text) (args : List Text) (files : Files)
        → (r : ProcessResult × Files) × (compiler_process h request.compiler input output args files
            ≡ ok r)
    pub packs : (t : Text) → (out : Text) × (make_compressor h.zstd s.compressor_factory t ≡ ok out)

  module _ (ready : IsReady) where
    from_result-ne-throws :
        (output : Text) (t : Temps) (r : ProcessResult × Files)
        → (from_result h s output t r).0 ≢ Flow.throws
    unfolding from_result
    from_result-ne-throws output t (result, after) e =
        let (out, f) = ready.packs (read output after) in cc (rw (f, from_result) at e)

    parse_and_compile-ne-throws :
        (input output : Text) (t : Temps)
        → (parse_and_compile h s request input output t).0 ≢ Flow.throws
    unfolding parse_and_compile compile
    parse_and_compile-ne-throws input output t e = elim (Result-cases (parse request.argument)) [
      | inl (w, f) ↦ cc (rw (f, parse_and_compile) at e)
      | inr (args, f) ↦
          let (r, g) = ready.starts input output args t.files in
          from_result-ne-throws output t r (rw (f, parse_and_compile, g, compile) at e)
    ]

    with_output-ne-throws :
        (input : Text) (t : Temps)
        → is_basename request.input_file.name ≡ true
        → (with_output h s peer request input t).0 ≢ Flow.throws
    unfolding with_output
    with_output-ne-throws input t base e =
        let (made, f) = output_made h.mkdtemp ready.makes peer request.input_file.name t base in
        parse_and_compile-ne-throws input made.0.path made.1
          (leave_throws h made.0 _ (rw (f, with_output) at e))

    with_files-ne-throws :
        (data_text : Text) (t : Temps)
        → is_empty request.input_file.name ≡ false
        → is_basename request.input_file.name ≡ true
        → (with_files h s peer request data_text t).0 ≢ Flow.throws
    unfolding with_files
    with_files-ne-throws data_text t full base e =
        let (made, f) =
          input_made h.mkdtemp ready.makes peer request.input_file.name data_text t full base in
        with_output-ne-throws made.0.path made.1 base
          (leave_throws h made.0 _ (rw (f, with_files) at e))

    streamed-ne-throws :
        (o : Option Text) (t : Temps)
        → ((d : Text) → (with_files h s peer request d t).0 ≢ Flow.throws)
        → (decompressed h s peer request (streamed o) t).0 ≢ Flow.throws
    unfolding decompressed
    streamed-ne-throws none t f e = cc
    streamed-ne-throws (some d) t f e = f d e

    decompressed-ne-throws :
        (c : CompressionType) (t : Temps)
        → IsKnown h.zstd c
        → ((d : Text) → (with_files h s peer request d t).0 ≢ Flow.throws)
        → (decompressed h s peer request (decompress h.zstd c request.input_file.content) t).0
          ≢ Flow.throws
    unfolding decompressed decompress
    decompressed-ne-throws CompressionType.none t k f e = f _ e
    decompressed-ne-throws CompressionType.zstd t k f e =
        streamed-ne-throws (h.zstd.decompressor request.input_file.content) t f (
          subst (λ r. (decompressed h s peer request r t).0 ≡ Flow.throws)
            (decompress_enabled h.zstd request.input_file.content k) e)
    decompressed-ne-throws (CompressionType.other n) t k f e = absurd k

    process-ne-throws :
        (t : Temps)
        → IsKnown h.zstd request.input_file.compression_type
        → is_empty request.input_file.name ≡ false
        → ((p : Text) → IsReadable (h.directory p))
        → (process h s peer request t).0 ≢ Flow.throws
    unfolding process sanitize_request sanitize_file
    process-ne-throws t known full readable e = elim (Bool-cases (sanitize_request request)) [
      | inr bad ↦ cc (rw bad at e)
      | inl clean ↦ elim (check_cases (check_compiler_allowed h.directory request.compiler)) [
        | inr (inl bad) ↦ cc (rw (clean, bad) at e)
        | inr (inr broken) ↦ absurd (readable-check h.directory request.compiler readable broken)
        | inl allowed ↦
            decompressed-ne-throws _ t known
              (λ d. with_files-ne-throws d t full (ground (arith, clean)))
              (ap (λ r. r.0) (sym (process-checked h s peer request t clean allowed)) ∙ e)
      ]
    ]

module _ (h : Host) (s : Server) (peer : Text) (request : CompileRequest) (t : Temps) where
  -- `Distribute` does not end the process if the compression type is one for which the build has a
  -- filter, the file's name is not empty, the directories of allowed compilers can be read if they are
  -- there, the temporary directories can be made, are new and are let be removed, the compiler starts
  -- and writes no file but its output, and the server's own compressor does not fail.
  pub distribute-ne-terminates :
      IsKnown h.zstd request.input_file.compression_type
      → is_empty request.input_file.name ≡ false
      → ((p : Text) → IsReadable (h.directory p))
      → IsReady h s peer request
      → (distribute h peer request s t).1 ≢ Outcome.terminates
  distribute-ne-terminates known full readable ready e =
      elim (Bool-cases (is_reserved request.uuid s.reservations)) [
        | inr unlisted ↦ cc (ap (λ o. o.1) (distribute-absent h peer request s t unlisted))
        | inl listed ↦
            elim (caught_terminates h _
              (sym (ap (λ o. o.1) (distribute-listed h peer request s t listed)) ∙ e)) [
                | inl throws ↦
                    process-ne-throws h s' peer request ready' t known full readable throws
                | inr dead ↦ (process-Restores h ready.orderly s' peer request t).0 dead
              ]
      ]
    where
      s' : Server
      s' = taken h peer request s

      ready' : IsReady h s' peer request
      ready' = record {
        orderly = ready.orderly;
        makes = ready.makes;
        starts = ready.starts;
        packs = ready.packs;
      }
