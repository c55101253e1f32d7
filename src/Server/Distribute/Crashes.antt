-- ===== src/Server/Distribute/Crashes.antt =====
-- Which requests end the server's process.
use distplusplus.Base.{
  some, ℕ, ◌≡◌, refl, ap, ◌∙◌, Bool, true, false, List, [], ◌++◌, ok, err, Result-cases, inl, inr,
}
use distplusplus.Base.Text.{Text, codes, is_empty}
use distplusplus.Base.FileSystem.{Files}
use distplusplus.Base.FilePath.{filename}
use distplusplus.Common.Compression.{CompressionType, decompress}
use distplusplus.Common.Process.{ProcessError}
use distplusplus.Common.Tempfile.{
  Temps, Tempfile, template, create_file_name, new_tempfile, destroy,
}
use distplusplus.Server.Parser.{parse}
use distplusplus.Server.Reservations.Members.{is_reserved}
use distplusplus.Server.Jobs.{Server}
use distplusplus.Server.Requests.{CompileRequest, sanitize_request, check_compiler_allowed}
use distplusplus.Server.Distribute.{
  Host, Flow, Outcome, delimited, left, leave, caught, compiler_process, compile, parse_and_compile,
  with_output, with_files, decompressed, process, distribute,
}
use distplusplus.Server.Distribute.Slots.{taken, distribute-listed}

-- The process is lost where the handler does not return.
abbrev pub IsLost : Flow → Type 0
IsLost (Flow.returns st a) = ⊥
IsLost Flow.throws = Unit
IsLost Flow.dead = Unit

pub caught_lost : (h : Host) (r : Flow × Temps) → IsLost r.0 → (caught h r).0 ≡ Outcome.terminates
unfolding caught
caught_lost h (Flow.dead, t) e = refl
caught_lost h (Flow.throws, t) e = refl
caught_lost h (Flow.returns st a, t) e = absurd e

left-IsLost : (f : Flow) (d : Bool × Temps) → IsLost f → IsLost (left f d).0
unfolding left
left-IsLost f (true, t) l = l
left-IsLost f (false, t) l = tt

pub leave-IsLost :
    (h : Host) (file : Tempfile) (r : Flow × Temps) → IsLost r.0 → IsLost (leave h file r).0
unfolding leave
leave-IsLost h file (Flow.dead, t) l = tt
leave-IsLost h file (Flow.throws, t) l = left-IsLost _ (destroy h.denied file t) tt
leave-IsLost h file (Flow.returns st a, t) l = absurd l

module _ (h : Host) (request : CompileRequest) where
  -- Why a job that passed the checks ends the process: a type that the enum does not name; an empty
  -- name, where the content can be read; a program that cannot be started, where the arguments are
  -- accepted.
  pub data IsFatal : Type 0 where
    unknown_type : (n : ℕ) → request.input_file.compression_type ≡ CompressionType.other n → IsFatal
    no_name :
        (d : Text)
        → decompress h.zstd request.input_file.compression_type request.input_file.content ≡ ok d
        → request.input_file.name ≡ []
        → IsFatal
    not_started :
        (d : Text) (args : List Text)
        → decompress h.zstd request.input_file.compression_type request.input_file.content ≡ ok d
        → parse request.argument ≡ ok args
        → ((input output : Text) (files : Files)
            → (e : ProcessError) × (compiler_process h request.compiler input output args files
                ≡ err e))
        → IsFatal

module _ (h : Host) (s : Server) (peer : Text) (request : CompileRequest) where
  -- The checks are passed.
  pub process-checked :
      (t : Temps)
      → sanitize_request request ≡ true
      → check_compiler_allowed h.directory request.compiler ≡ some true
      → process h s peer request t
        ≡ decompressed h s peer request
            (decompress h.zstd request.input_file.compression_type request.input_file.content)
            t
  unfolding process
  process-checked t clean allowed = rw (clean, allowed)

  parse_and_compile-IsLost :
      (args : List Text)
      → parse request.argument ≡ ok args
      → ((input output : Text) (files : Files)
          → (e : ProcessError) × (compiler_process h request.compiler input output args files
              ≡ err e))
      → (input output : Text) (t : Temps) → IsLost (parse_and_compile h s request input output t).0
  unfolding parse_and_compile compile
  parse_and_compile-IsLost args parsed fails input output t =
      let (e, f) = fails input output t.files in rw (parsed, parse_and_compile, f, compile) tt

  with_output-IsLost :
      ((input output : Text) (t : Temps) → IsLost (parse_and_compile h s request input output t).0)
      → (input : Text) (t : Temps) → IsLost (with_output h s peer request input t).0
  unfolding with_output
  with_output-IsLost lost input t =
      elim (Result-cases
        (new_tempfile h.mkdtemp (request.input_file.name ++ codes ".o") (delimited peer) [] t)) [
          | inl (w, f) ↦ rw (f, with_output) tt
          | inr ((output, t'), f) ↦
              rw (f, with_output) (leave-IsLost h output _ (lost input output.path t'))
        ]

  pub with_files-IsLost :
      ((input : Text) (t : Temps) → IsLost (with_output h s peer request input t).0)
      → (d : Text) (t : Temps) → IsLost (with_files h s peer request d t).0
  unfolding with_files
  with_files-IsLost lost d t =
      elim (Result-cases (new_tempfile h.mkdtemp request.input_file.name (delimited peer) d t)) [
        | inl (w, f) ↦ rw (f, with_files) tt
        | inr ((input, t'), f) ↦ rw (f, with_files) (leave-IsLost h input _ (lost input.path t'))
      ]

  pub decompressed-IsLost :
      (d : Text) (t : Temps)
      → decompress h.zstd request.input_file.compression_type request.input_file.content ≡ ok d
      → IsLost (with_files h s peer request d t).0
      → IsLost
          (decompressed h s peer request
            (decompress h.zstd request.input_file.compression_type request.input_file.content)
            t).0
  unfolding decompressed
  decompressed-IsLost d t e l = rw e l

  fatal-IsLost :
      (t : Temps)
      → IsFatal h request
      → IsLost
          (decompressed h s peer request
            (decompress h.zstd request.input_file.compression_type request.input_file.content)
            t).0
  unfolding decompressed decompress with_files new_tempfile create_file_name template filename
      is_empty
  fatal-IsLost t (IsFatal.unknown_type n e) = rw (e, decompress) tt
  fatal-IsLost t (IsFatal.no_name d e f) = rw (e, f) tt
  fatal-IsLost t (IsFatal.not_started d args e parsed fails) =
      decompressed-IsLost d t e
        (with_files-IsLost (with_output-IsLost (parse_and_compile-IsLost args parsed fails)) d t)

module _ (h : Host) (s : Server) (peer : Text) (request : CompileRequest) (t : Temps) where
  -- If the uuid is reserved, the names pass their check and the compiler is allowed, `Distribute`
  -- ends the process when the compression type is one that the enum does not name, when the file's
  -- name is empty and its content can be read, and when the content can be read, the arguments are
  -- accepted and the compiler cannot be started.
  pub distribute-terminates :
      is_reserved request.uuid s.reservations ≡ true
      → sanitize_request request ≡ true
      → check_compiler_allowed h.directory request.compiler ≡ some true
      → IsFatal h request
      → (distribute h peer request s t).1 ≡ Outcome.terminates
  distribute-terminates listed clean allowed fatal =
      let s' = taken h peer request s in
      ap (λ o. o.1) (distribute-listed h peer request s t listed)
      ∙ ap (λ r. (caught h r).0) (process-checked h s' peer request t clean allowed)
      ∙ caught_lost h _ (fatal-IsLost h s' peer request t fatal)
