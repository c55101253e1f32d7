-- ===== src/Client/Main.antt =====
-- src/client/main.cpp: `func` and `main`. What they ask of the rest of the program and of the system
-- is a parameter: the file system, the bound of the parser, the start of programs, the zstd filters,
-- `Client::send` behind `ClientFactory`, and stdin. What is printed is not modelled.
pub mod Remote
pub mod Completes
pub mod Local
use distplusplus.Base.{
  ℕ, zero, suc, ◌==◌, Bool, true, false, not, ◌&&◌, ◌||◌, List, [], ◌∷◌, ◌++◌, Option, none, some,
  Result, ok, err, if◌then◌else◌,
}
use distplusplus.Base.Text.{Text, codes, text_eq, is_empty, starts_with}
use distplusplus.Base.FilePath.{filename, stem}
use distplusplus.Common.Compression.{CompressionType, CompressionError, Zstd, compress, decompress}
use distplusplus.Common.Process.{Processes, ProcessResult, ProcessError, process_helper}
use distplusplus.Server.Requests.{CompileAnswer}
use distplusplus.Client.Parser.{FileSystem, Stop, Parser, parse}
use distplusplus.Client.Command.{compiler_name, preprocessor_args, job_args}
use distplusplus.Client.Config.{Config}
use distplusplus.Client.Sending.{Failure}
use distplusplus.Client.Input.{Stdin, stdin_empty, local_input}

pub record System : Type 0 where
  pub build_target : Text
  pub files : FileSystem
  -- how deep argument files may name one another
  pub fuel : ℕ
  pub zstd : Zstd
  pub config : Config
  pub processes : Processes
  -- from the program, its arguments and its stdin
  pub launch : Text → List Text → Text → Option ProcessResult
  -- from the compiler's name, the arguments, the file's name and its compressed content
  pub send : Text → List Text → Text → Text → Result Failure CompileAnswer
  pub stdin : Stdin
  -- what becomes of stdin between the two looks at it
  pub later : Stdin → Stdin
  pub search_path : Text → Text
  pub exists : Text → Bool

-- How `func` ends: it returns, perhaps having written a file; it throws `FallbackSignal`; another
-- exception leaves it, which `main` does not catch; or the model's bound is met.
pub data Ended : Type 0 where
  minus_one falls_back terminates out_of_fuel : Ended
  returns : ℕ → Option (Text × Text) → Ended

module _ (sys : System) where
  -- What is done with the answer of `send`.
  unfoldable pub receive : Parser → CompileAnswer → Ended
  receive p answer =
      if is_empty answer.output_file.content
      then Ended.returns answer.return_code none
      else elim (decompress sys.zstd answer.output_file.compression_type
          answer.output_file.content) [
            | err e ↦ Ended.terminates
            | ok content ↦ Ended.returns answer.return_code (some (p.outfile, content))
          ]

  -- From the compressor on, which is built before the return code is looked at.
  unfoldable pub transmit : Text → Parser → ProcessResult → Ended
  unfolding receive
  transmit name p pre =
      elim (compress sys.zstd sys.config.compression_type sys.config.compression_level pre.stdout) [
        | err e ↦ Ended.terminates
        | ok content ↦
            if not (pre.return_code == 0)
            then Ended.returns pre.return_code none
            else elim (sys.send (compiler_name sys.build_target name)
                (job_args sys.build_target name p) (filename p.infile) content) [
                  | err failure ↦ Ended.falls_back
                  | ok answer ↦ receive p answer
                ]
      ]

  -- The run of the preprocessor, and what follows it.
  unfoldable pub preprocess : Text → List Text → Result ProcessError ProcessResult
  preprocess compiler args =
      process_helper sys.processes sys.launch (sys.search_path compiler) args []

  unfoldable pub preprocessed : Text → Parser → Result ProcessError ProcessResult → Ended
  unfolding transmit
  preprocessed name p (err e) = Ended.terminates
  preprocessed name p (ok pre) = transmit name p pre

  -- From the parser on, for the compiler's name and its arguments.
  unfoldable pub wrap : Text → List Text → Ended
  unfolding preprocessed preprocess
  wrap name args = elim (parse sys.files sys.fuel args) [
    | err Stop.fallback_signal ↦ Ended.falls_back
    | err Stop.filesystem_error ↦ Ended.terminates
    | err (Stop.parser_error message) ↦ Ended.falls_back
    | err Stop.out_of_fuel ↦ Ended.out_of_fuel
    | ok p ↦ elim p.can_distribute [
      | some true ↦ preprocessed name p (
          preprocess (compiler_name sys.build_target name)
            (preprocessor_args sys.build_target name p))
      | _ ↦ Ended.falls_back
    ]
  ]

  abbrev pub is_wrapper : Text → Bool
  is_wrapper program = text_eq (stem program) (codes "distplusplus")

  -- `argv` is the program's name and its arguments.
  unfoldable pub func : Text → List Text → Ended
  unfolding wrap
  func program args =
      if is_wrapper program
      then elim args [ [] ↦ Ended.minus_one | compiler ∷ rest ↦ wrap (stem compiler) rest ]
      else wrap (stem program) args

  -- The compiler that the local fallback runs, or `none` where there is none.
  unfoldable pub local_compiler : Bool → Text → Option Text
  local_compiler as_itself path =
      let away =
        if as_itself
          && (starts_with path (codes "/usr/libexec/distplusplus")
              || starts_with path (codes "/usr/lib/distcc"))
        then sys.search_path (stem path)
        else path in
      let found = if text_eq (stem away) away then sys.search_path (stem away) else away in
      if sys.exists found then some found else none

  -- The end of the process, with the local run by its compiler, its arguments and its return code.
  pub data Exit : Type 0 where
    failure abort unbounded : Exit
    remote : ℕ → Option (Text × Text) → Exit
    local : Text → List Text → ℕ → Exit

  -- The run of the local compiler, which is given what is on stdin.
  unfoldable pub local_process : Text → List Text → Result ProcessError ProcessResult
  local_process found args =
      process_helper sys.processes sys.launch found args (local_input sys.later sys.stdin)

  unfoldable pub local_exit : Text → List Text → Result ProcessError ProcessResult → Exit
  local_exit found args (err e) = Exit.abort
  local_exit found args (ok result) = Exit.local found args result.return_code

  unfoldable pub run_local : Bool → Text → List Text → Exit
  unfolding local_compiler local_exit local_process
  run_local as_itself path args = elim (local_compiler as_itself path) [
    | none ↦ Exit.failure
    | some found ↦ local_exit found args (local_process found args)
  ]

  -- The handler of `FallbackSignal`.
  unfoldable pub fallback : Text → List Text → Exit
  unfolding run_local
  fallback program args =
      if not sys.config.fallback
      then Exit.failure
      else if is_wrapper program
      then elim args [ [] ↦ Exit.abort | compiler ∷ rest ↦ run_local false compiler rest ]
      else run_local true program args

  unfoldable pub finish : Text → List Text → Ended → Exit
  unfolding fallback
  finish program args Ended.minus_one = Exit.failure
  finish program args Ended.falls_back = fallback program args
  finish program args Ended.terminates = Exit.abort
  finish program args Ended.out_of_fuel = Exit.unbounded
  finish program args (Ended.returns code file) = Exit.remote code file

  unfoldable pub main : Text → List Text → Exit
  unfolding func finish
  main program args =
      finish program args
        (if not (stdin_empty sys.stdin).0 then Ended.falls_back else func program args)
