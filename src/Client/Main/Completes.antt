-- ===== src/Client/Main/Completes.antt =====
-- When `main` compiles remotely.
use distplusplus.Base.{
  ◌==◌, ◌≡◌, refl, Bool-cases, inl, inr, true, false, List, Option, none, some, ok, if◌then◌else◌,
}
use distplusplus.Base.Text.{Text, is_empty}
use distplusplus.Base.FilePath.{filename, stem}
use distplusplus.Common.Compression.{compress, decompress}
use distplusplus.Common.Process.{ProcessResult}
use distplusplus.Server.Requests.{CompileAnswer}
use distplusplus.Client.Parser.{Parser, parse}
use distplusplus.Client.Command.{compiler_name, preprocessor_args, job_args}
use distplusplus.Client.Input.{stdin_empty}
use distplusplus.Client.Main.{
  System, Ended, receive, transmit, preprocess, preprocessed, wrap, func, Exit, finish, main,
  is_wrapper,
}

-- Nothing is written where the answer has no content.
abbrev pub output_of : Parser → CompileAnswer → Text → Option (Text × Text)
output_of p answer text =
    if is_empty answer.output_file.content then none else some (p.outfile, text)

module _ (sys : System) (program : Text) (args : List Text) (p : Parser) where
  receive_done :
      (answer : CompileAnswer) (text : Text)
      → decompress sys.zstd answer.output_file.compression_type answer.output_file.content ≡ ok text
      → receive sys p answer ≡ Ended.returns answer.return_code (output_of p answer text)
  unfolding receive
  receive_done answer text e = elim (Bool-cases (is_empty answer.output_file.content)) [
    | inl f ↦ rw (f, receive) refl
    | inr f ↦ rw (f, receive, e) refl
  ]

  -- If the program is not the wrapper itself, stdin is empty, the parse allows distribution, the
  -- preprocessor succeeds, and `send` returns for its compressed output an answer that can be read,
  -- `main` ends with the answer's code, having written the answer's text to the output file unless
  -- the answer has no content.
  pub main_completes :
      (pre : ProcessResult) (content : Text) (answer : CompileAnswer) (text : Text)
      → is_wrapper sys program ≡ false
      → (stdin_empty sys.stdin).0 ≡ true
      → parse sys.files sys.fuel args ≡ ok p
      → p.can_distribute ≡ some true
      → preprocess sys
          (compiler_name sys.build_target (stem program))
          (preprocessor_args sys.build_target (stem program) p)
        ≡ ok pre
      → (pre.return_code == 0) ≡ true
      → compress sys.zstd sys.config.compression_type sys.config.compression_level pre.stdout
        ≡ ok content
      → sys.send
          (compiler_name sys.build_target (stem program))
          (job_args sys.build_target (stem program) p)
          (filename p.infile)
          content
        ≡ ok answer
      → decompress sys.zstd answer.output_file.compression_type answer.output_file.content ≡ ok text
      → main sys program args ≡ Exit.remote answer.return_code (output_of p answer text)
  unfolding main func wrap preprocessed transmit finish
  main_completes pre content answer text direct empty parsed allowed ran good packed sent unpacked =
      rw
        (
          empty,
          func,
          direct,
          wrap,
          parsed,
          allowed,
          ran,
          preprocessed,
          transmit,
          packed,
          good,
          sent,
          receive_done answer text unpacked,
          finish,
        )
        refl
