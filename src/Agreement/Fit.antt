-- ===== src/Agreement/Fit.antt =====
-- What a server finds of a job that the client's parser has made.
use distplusplus.Base.{ℕ, ◌≡◌, refl, sym, ◌∙◌, true, false, List, [], ◌∷◌, some, none, ok, inl, inr}
use distplusplus.Base.Text.{Text, codes, has_char, is_empty, is_one_of, text_eq}
use distplusplus.Base.FilePath.{filename, extension, parts, stem}
use distplusplus.Common.Constants.{input_file_extension}
use distplusplus.Common.Compression.{CompressionType, compress, make_compressor}
use distplusplus.Common.Compression.RoundTrip.{IsLossless, decompress-make_compressor}
use distplusplus.Server.Requests.{check_compiler_allowed}
use distplusplus.Server.Distribute.{Host}
use distplusplus.Server.Distribute.Completes.{IsFit}
use distplusplus.Client.Parser.{FileSystem, Parser, parse as client_parse}
use distplusplus.Client.Parser.Distributes.{IsJob, parse-IsJob}
use distplusplus.Client.Command.{compiler_name, job_args}
use distplusplus.Client.Sending.{Slot, compile_request}
use distplusplus.Agreement.Tables.{IsQuiet}
use distplusplus.Agreement.Jobs.{parse-job_args}
use distplusplus.Agreement.Names.{sanitize_request-compile_request}

parts-named :
    (name : Text) → is_one_of (parts name).1 input_file_extension ≡ true → is_empty name ≡ false
unfolding parts is_one_of input_file_extension text_eq is_empty
parts-named [] h = cc
parts-named (c ∷ s) h = refl

-- A file with a known extension has a name.
extension-named :
    (p : Text) → is_one_of (extension p) input_file_extension ≡ true → is_empty (filename p) ≡ false
unfolding extension
extension-named p h = parts-named (filename p) h

-- A job that the client can send and the server does not refuse: the parse allows distribution, with
-- mode `-c` and no target given, and the build's target is a plain word to the server.
pub record IsSendable (fs : FileSystem) (fuel : ℕ) (args : List Text) (build_target : Text)
    (p : Parser) : Type 0 where
  pub parsed : client_parse fs fuel args ≡ ok p
  pub allowed : p.can_distribute ≡ some true
  pub no_target : p.target ≡ none
  pub compiles : p.mode_arg ≡ codes "-c"
  pub quiet : IsQuiet build_target
  pub plain : has_char build_target b'/' ≡ false

module _ (fs : FileSystem) (fuel : ℕ) (args : List Text) (build_target program : Text) (p : Parser)
    (job : IsSendable fs fuel args build_target p) where
  sendable-IsJob : IsJob p
  sendable-IsJob = elim (parse-IsJob fs fuel args p job.parsed) [
    | inl excluded ↦ cc (sym excluded ∙ job.allowed)
    | inr is_job ↦ is_job
  ]

  pub sendable-IsFit :
      (h : Host) (peer : Text) (slot : Slot) (type : CompressionType) (level : ℕ)
      (source content cwd : Text)
      → IsLossless h.zstd
      → compress h.zstd type level source ≡ ok content
      → check_compiler_allowed h.directory (compiler_name build_target (stem program)) ≡ some true
      → IsFit h peer (
          compile_request slot
            (compiler_name build_target (stem program))
            (job_args build_target (stem program) p)
            (filename p.infile)
            content
            type
            cwd)
  unfolding compile_request make_compressor
  sendable-IsFit h peer slot type level source content cwd lossless packed allowed =
      let (out, accepted) =
        parse-job_args fs fuel args build_target (stem program) p job.parsed job.allowed
          job.no_target job.quiet job.compiles in
      record {
        clean =
            sanitize_request-compile_request build_target program p.infile slot
              (job_args build_target (stem program) p) content type cwd job.plain;
        named = extension-named p.infile sendable-IsJob.known_extension;
        allowed = allowed;
        data_text = source;
        read_in =
            decompress-make_compressor h.zstd lossless
              (record { compression_type = type; compression_level = level }) source content packed;
        args = out;
        parsed = accepted;
      }
