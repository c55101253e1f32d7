-- ===== src/Client/Main/Remote.antt =====
-- What a remote compilation leaves behind.
use distplusplus.Base.{
  ℕ, ◌==◌, ◌≡◌, ◌≢◌, refl, Bool, true, false, List, [], ◌∷◌, some, Result, ok, err, arith,
  Bool-cases, Result-cases, Option-cases, inl, inr, ◌⊎◌,
}
use distplusplus.Base.Text.{Text}
use distplusplus.Base.FilePath.{filename, stem}
use distplusplus.Common.Compression.{compress, decompress}
use distplusplus.Common.Process.{ProcessResult, ProcessError}
use distplusplus.Server.Requests.{CompileAnswer}
use distplusplus.Client.Parser.{Stop, Parser, parse}
use distplusplus.Client.Parser.Distributes.{IsJob, parse-IsJob}
use distplusplus.Client.Command.{compiler_name, preprocessor_args, job_args}
use distplusplus.Client.Input.{stdin_empty}
use distplusplus.Client.Main.{
  System, Ended, receive, transmit, preprocess, preprocessed, wrap, func, Exit, fallback, finish,
  main, run_local, local_exit, local_compiler, is_wrapper,
}

-- The compiler's name and its arguments: those of the command line, or of the command line behind the
-- wrapper's name.
abbrev pub Called : Text → List Text → Text → List Text → Type 0
Called program args name args' =
    ((args ≡ args') × (name ≡ stem program))
    ⊎ ((compiler : Text) × (args ≡ compiler ∷ args') × (name ≡ stem compiler))

module _ (sys : System) (code : ℕ) (path text : Text) where
  -- The job that was sent, and its answer.
  pub record IsRemote (name : Text) (args : List Text) : Type 0 where
    pub p : Parser
    pub parsed : parse sys.files sys.fuel args ≡ ok p
    pub is_job : IsJob p
    pub content : Text
    pub answer : CompileAnswer
    pub pre : ProcessResult
    pub ran :
        preprocess sys
          (compiler_name sys.build_target name)
          (preprocessor_args sys.build_target name p)
        ≡ ok pre
    pub succeeded : (pre.return_code == 0) ≡ true
    pub packed :
        compress sys.zstd sys.config.compression_type sys.config.compression_level pre.stdout
        ≡ ok content
    pub sent :
        sys.send
          (compiler_name sys.build_target name)
          (job_args sys.build_target name p)
          (filename p.infile)
          content
        ≡ ok answer
    pub unpacked :
        decompress sys.zstd answer.output_file.compression_type answer.output_file.content ≡ ok text
    pub target : path ≡ p.outfile
    pub result : code ≡ answer.return_code

  receive_inv :
      (p : Parser) (answer : CompileAnswer)
      → receive sys p answer ≡ Ended.returns code (some (path, text))
      → (decompress sys.zstd answer.output_file.compression_type answer.output_file.content
          ≡ ok text)
        × (path ≡ p.outfile)
        × (code ≡ answer.return_code)
  unfolding receive
  receive_inv p answer h = ground arith

  transmit_inv :
      (name : Text) (args : List Text) (p : Parser)
      → parse sys.files sys.fuel args ≡ ok p
      → IsJob p
      → (pre : ProcessResult)
      → preprocess sys
          (compiler_name sys.build_target name)
          (preprocessor_args sys.build_target name p)
        ≡ ok pre
      → transmit sys name p pre ≡ Ended.returns code (some (path, text))
      → IsRemote name args
  unfolding transmit
  transmit_inv name args p parsed job pre ran h =
      elim (Result-cases
        (compress sys.zstd sys.config.compression_type sys.config.compression_level pre.stdout)) [
          | inl (w, e) ↦ cc (rw (e, transmit) at h)
          | inr (content, e) ↦ elim (Bool-cases (pre.return_code == 0)) [
            | inr bad ↦ cc (rw (e, transmit, bad) at h)
            | inl good ↦
                elim (Result-cases (
                  sys.send (compiler_name sys.build_target name) (job_args sys.build_target name p)
                    (filename p.infile) content)) [
                      | inl (w, f) ↦ cc (rw (e, transmit, good, f) at h)
                      | inr (answer, f) ↦
                          let (d, t, c) = receive_inv p answer (rw (e, transmit, good, f) at h) in
                          record {
                            p = p;
                            parsed = parsed;
                            is_job = job;
                            content = content;
                            answer = answer;
                            pre = pre;
                            ran = ran;
                            succeeded = good;
                            packed = e;
                            sent = f;
                            unpacked = d;
                            target = t;
                            result = c;
                          }
                    ]
          ]
        ]

  preprocessed_inv :
      (name : Text) (args : List Text) (p : Parser)
      → parse sys.files sys.fuel args ≡ ok p
      → IsJob p
      → (r : Result ProcessError ProcessResult)
      → preprocess sys
          (compiler_name sys.build_target name)
          (preprocessor_args sys.build_target name p)
        ≡ r
      → preprocessed sys name p r ≡ Ended.returns code (some (path, text))
      → IsRemote name args
  unfolding preprocessed
  preprocessed_inv name args p parsed job (err e) ran h = cc
  preprocessed_inv name args p parsed job (ok pre) ran h =
      transmit_inv name args p parsed job pre ran h

  wrap_inv :
      (name : Text) (args : List Text)
      → wrap sys name args ≡ Ended.returns code (some (path, text))
      → IsRemote name args
  unfolding wrap
  wrap_inv name args h = elim (Result-cases (parse sys.files sys.fuel args)) [
    | inl (Stop.fallback_signal, e) ↦ cc (rw (e, wrap) at h)
    | inl (Stop.filesystem_error, e) ↦ cc (rw (e, wrap) at h)
    | inl (Stop.out_of_fuel, e) ↦ cc (rw (e, wrap) at h)
    | inl (Stop.parser_error m, e) ↦ cc (rw (e, wrap) at h)
    | inr (p, e) ↦
        let g = rw (e, wrap) at h in
        elim (parse-IsJob sys.files sys.fuel args p e) [
          | inl no_job ↦ cc (rw no_job at g)
          | inr job ↦ preprocessed_inv name args p e job _ refl (rw (job.allowed) at g)
        ]
  ]

  func_inv :
      (program : Text) (args : List Text)
      → func sys program args ≡ Ended.returns code (some (path, text))
      → (name : Text) × (args' : List Text) × IsRemote name args' × Called program args name args'
  unfolding func
  func_inv program args h = elim (Bool-cases (is_wrapper sys program)) [
    | inr w ↦
        (stem program, args, wrap_inv (stem program) args (rw (w, func) at h), inl (refl, refl))
    | inl w ↦ behind args (rw (w, func) at h)
  ]
    where
      behind :
          (args : List Text)
          → (elim args [ [] ↦ Ended.minus_one | compiler ∷ rest ↦ wrap sys (stem compiler) rest ])
            ≡ Ended.returns code (some (path, text))
          → (name : Text) × (args' : List Text) × IsRemote name args'
            × Called program args name args'
      behind [] e = cc
      behind (compiler ∷ rest) e =
          (stem compiler, rest, wrap_inv (stem compiler) rest e, inr (compiler, refl, refl))

  local_exit-ne :
      (found : Text) (args : List Text) (r : Result ProcessError ProcessResult)
      → local_exit sys found args r ≢ Exit.remote code (some (path, text))
  unfolding local_exit
  local_exit-ne found args (err e) h = cc
  local_exit-ne found args (ok result) h = cc

  run_local-ne :
      (as_itself : Bool) (program : Text) (args : List Text)
      → run_local sys as_itself program args ≢ Exit.remote code (some (path, text))
  unfolding run_local
  run_local-ne as_itself program args h =
      elim (Option-cases (local_compiler sys as_itself program)) [
        | inl e ↦ cc (rw (e, run_local) at h)
        | inr (found, e) ↦ local_exit-ne found args _ (rw (e, run_local) at h)
      ]

  fallback-ne :
      (program : Text) (args : List Text)
      → fallback sys program args ≢ Exit.remote code (some (path, text))
  unfolding fallback
  fallback-ne program [] h = let itself = run_local-ne true program [] in ground (arith, itself)
  fallback-ne program (compiler ∷ rest) h =
      let itself = run_local-ne true program (compiler ∷ rest) in
      let behind = run_local-ne false compiler rest in ground (arith, itself, behind)

  finish_inv :
      (program : Text) (args : List Text) (e : Ended)
      → finish sys program args e ≡ Exit.remote code (some (path, text))
      → e ≡ Ended.returns code (some (path, text))
  unfolding finish
  finish_inv program args Ended.minus_one h = cc
  finish_inv program args Ended.falls_back h = absurd (fallback-ne program args h)
  finish_inv program args Ended.terminates h = cc
  finish_inv program args Ended.out_of_fuel h = cc
  finish_inv program args (Ended.returns c file) h = cc

  -- If `main` ends with a remote compilation that wrote a file, stdin was empty, and the file is the
  -- output file of a job that the parser made of the command line's arguments for the program's name,
  -- or of all behind the compiler's name for that; its text is the decompressed answer to this job, sent with the compressed output
  -- of a preprocessor that succeeded, and the exit code is the answer's.
  pub main_remote :
      (program : Text) (args : List Text)
      → main sys program args ≡ Exit.remote code (some (path, text))
      → ((stdin_empty sys.stdin).0 ≡ true)
        × ((name : Text) × (args' : List Text) × IsRemote name args'
            × Called program args name args')
  unfolding main
  main_remote program args h = elim (Bool-cases (stdin_empty sys.stdin).0) [
    | inl e ↦ (e, func_inv program args (rw e at (finish_inv program args _ h)))
    | inr e ↦ cc (rw e at (finish_inv program args _ h))
  ]
