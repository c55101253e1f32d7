-- ===== src/Server/Distribute/Leftover.antt =====
-- A compiler that writes a second file beside its output.
use distplusplus.Base.{
  some, ◌≡◌, refl, ap, ◌∙◌, true, false, List, [], ◌∷◌, ◌++◌, none, ok, Result-cases, inl, inr,
  Bool,
}
use distplusplus.Base.Text.{Text, codes, text_eq, has_char}
use distplusplus.Base.FilePath.{parent_path}
use distplusplus.Base.FileSystem.{Node, Files, put, read}
use distplusplus.Common.Compression.{decompress, make_compressor}
use distplusplus.Common.Process.{ProcessResult}
use distplusplus.Common.Tempfile.{Temps, Tempfile, new_tempfile, destroy}
use distplusplus.Common.Tempfile.Lifetime.{MakesFresh, IsNew, new_tempfile-IsNew, destroy-crowded}
use distplusplus.Server.Parser.{parse}
use distplusplus.Server.Reservations.Members.{is_reserved}
use distplusplus.Server.Jobs.{Server}
use distplusplus.Server.Requests.{CompileRequest, sanitize_request, check_compiler_allowed}
use distplusplus.Server.Distribute.{
  Host, Flow, Outcome, delimited, left, leave, caught, from_result, compiler_process, compile,
  parse_and_compile, with_output, distribute,
}
use distplusplus.Server.Distribute.Slots.{taken, distribute-listed}
use distplusplus.Server.Distribute.Crashes.{
  IsLost, caught_lost, leave-IsLost, process-checked, with_files-IsLost, decompressed-IsLost,
}

-- Each run that starts writes its output and a file `m` in the same directory, as gcc does for
-- -fstack-usage and -gsplit-dwarf.
abbrev pub LeavesMore : Host → Text → Type 0
LeavesMore h compiler =
    (input output : Text) (args : List Text) (before after : Files) (result : ProcessResult)
    → compiler_process h compiler input output args before ≡ ok (result, after)
    → (m v w : Text) × (has_char m b'/' ≡ false)
      × (text_eq (parent_path output ++ (b'/' ∷ m)) output ≡ false)
      × (after
          ≡ put (parent_path output ++ (b'/' ∷ m)) (Node.file w) (put output (Node.file v) before))

left_dead : (f : Flow) (d : Bool × Temps) → d.0 ≡ false → IsLost (left f d).0
unfolding left
left_dead f (true, t) e = cc
left_dead f (false, t) e = tt

leave_dead :
    (h : Host) (file : Tempfile) (f : Flow) (t : Temps)
    → (destroy h.denied file t).0 ≡ false
    → IsLost (leave h file (f, t)).0
unfolding leave
leave_dead h file Flow.dead t e = tt
leave_dead h file Flow.throws t e = left_dead _ (destroy h.denied file t) e
leave_dead h file (Flow.returns st a) t e = left_dead _ (destroy h.denied file t) e

module _ (h : Host) (s : Server) (peer : Text) (request : CompileRequest)
    (promise : MakesFresh h.mkdtemp) (allowed : (p : Text) → h.denied p ≡ none)
    (more : LeavesMore h request.compiler) where
  from_result_dead :
      (file : Tempfile) (t : Temps) (r : ProcessResult × Files)
      → ((t' : Temps) → t'.files ≡ r.1 → (destroy h.denied file t').0 ≡ false)
      → IsLost (leave h file (from_result h s file.path t r)).0
  unfolding from_result
  from_result_dead file t (result, after) fails =
      elim (Result-cases (make_compressor h.zstd s.compressor_factory (read file.path after))) [
        | inl (w, f) ↦
            rw (f, from_result)
              (leave_dead h file Flow.throws (record t { files = after }) (fails _ refl))
        | inr (content, f) ↦ rw (f, from_result) (leave_dead h file _ _ (fails _ refl))
      ]

  compile_dead :
      (before : Temps) (input : Text) (file : Tempfile) (t : Temps) (args : List Text)
      → IsNew before [] (file, t)
      → IsLost (leave h file (compile h s request.compiler input file.path t args)).0
  unfolding compile
  compile_dead before input file t args new =
      elim (Result-cases (compiler_process h request.compiler input file.path args t.files)) [
        | inl (w, f) ↦ rw (f, compile) (leave-IsLost h file (Flow.throws, t) tt)
        | inr ((result, after), f) ↦
            let (m, v, w, plain, other, e) = more input file.path args t.files after result f in
            rw (f, compile)
              (from_result_dead file t (result, after)
                λ t' same.
                  destroy-crowded h.denied allowed before [] file t t' m v w new plain other
                    (same ∙ e))
      ]

  with_output_dead :
      (args : List Text)
      → parse request.argument ≡ ok args
      → (input : Text) (t : Temps) → IsLost (with_output h s peer request input t).0
  unfolding with_output parse_and_compile
  with_output_dead args parsed input t =
      elim (Result-cases
        (new_tempfile h.mkdtemp (request.input_file.name ++ codes ".o") (delimited peer) [] t)) [
          | inl (w, f) ↦ rw (f, with_output) tt
          | inr ((file, t'), f) ↦
              let new = new_tempfile-IsNew h.mkdtemp promise _ _ [] t (file, t') f in
              rw (f, with_output, parsed, parse_and_compile) (compile_dead t input file t' args new)
        ]

module _ (h : Host) (s : Server) (peer : Text) (request : CompileRequest) (t : Temps) where
  -- If the uuid is reserved, the request passes its checks, its content can be read and its
  -- arguments are accepted, and each run of the compiler writes a second file beside its output,
  -- then `Distribute` ends the process, for a `mkdtemp` that makes new directories and a system that
  -- refuses no removal.
  pub distribute_leftover :
      (d : Text) (args : List Text)
      → MakesFresh h.mkdtemp
      → ((p : Text) → h.denied p ≡ none)
      → LeavesMore h request.compiler
      → is_reserved request.uuid s.reservations ≡ true
      → sanitize_request request ≡ true
      → check_compiler_allowed h.directory request.compiler ≡ some true
      → decompress h.zstd request.input_file.compression_type request.input_file.content ≡ ok d
      → parse request.argument ≡ ok args
      → (distribute h peer request s t).1 ≡ Outcome.terminates
  distribute_leftover d args promise allowed more listed clean permitted read_in parsed =
      let s' = taken h peer request s in
      ap (λ o. o.1) (distribute-listed h peer request s t listed)
      ∙ ap (λ r. (caught h r).0) (process-checked h s' peer request t clean permitted)
      ∙ caught_lost h _ (
          decompressed-IsLost h s' peer request d t read_in (
            with_files-IsLost h s' peer request
              (with_output_dead h s' peer request promise allowed more args parsed) d t))
