-- ===== src/Agreement/EndToEnd.antt =====
-- A whole compilation: the client's `main` with the server's `Distribute` at the other end.
use distplusplus.Base.{◌≡◌, sym, ◌∙◌, subst, ℕ, List, some, Result, ok}
use distplusplus.Base.Text.{Text}
use distplusplus.Base.FilePath.{filename}
use distplusplus.Base.FileSystem.{Files, read}
use distplusplus.Common.Status.{Status}
use distplusplus.Common.Compression.{CompressionType, Zstd, compress, make_compressor, decompress}
use distplusplus.Common.Compression.RoundTrip.{IsLossless, decompress-make_compressor}
use distplusplus.Common.Process.{ProcessResult}
use distplusplus.Common.Tempfile.{Temps}
use distplusplus.Common.Tempfile.Lifetime.{MakesFresh, read-two}
use distplusplus.Server.Jobs.{Server}
use distplusplus.Server.Parser.{parse as server_parse}
use distplusplus.Server.Requests.{CompileAnswer}
use distplusplus.Server.Distribute.{Host, Outcome, compiler_process, distribute}
use distplusplus.Server.Distribute.Slots.{taken}
use distplusplus.Server.Distribute.Answers.{distribute_answers, answer_decompresses}
use distplusplus.Client.Parser.{Parser, parse as client_parse}
use distplusplus.Client.Command.{compiler_name, preprocessor_args, job_args}
use distplusplus.Client.Sending.{Slot, compile_request}
use distplusplus.Client.Main.{System, Exit, preprocess, main}
use distplusplus.Client.Main.Remote.{Called, main_remote}

-- The answer is what the `Distribute` of the server with the slot returned for the client's request,
-- over the same filters; the hosts are given by the servers' names.
pub record IsServed (host : Text → Host) (z : Zstd) (type : CompressionType) (compiler : Text)
    (args : List Text) (file content : Text) (answer : CompileAnswer) : Type 0 where
  pub slot : Slot
  pub server : Server
  pub temps : Temps
  pub peer : Text
  pub cwd : Text
  pub status : Status
  pub same_filters : (host slot.server).zstd ≡ z
  pub promise : MakesFresh (host slot.server).mkdtemp
  pub returned :
      (distribute
        (host slot.server)
        peer
        (compile_request slot compiler args file content type cwd)
        server
        temps).1
      ≡ Outcome.returns status (some answer)

-- The compiler of this host was run once, on a file with the text `source` and the arguments that the
-- server's parser leaves of `args`; its return code is `code`, and `text` is what it left in its output
-- file.
pub record IsCompiled (host : Host) (compiler : Text) (args : List Text) (source : Text) (code : ℕ)
    (text : Text) : Type 0 where
  pub input : Text
  pub output : Text
  pub filtered : List Text
  pub before : Files
  pub after : Files
  pub result : ProcessResult
  pub parsed : server_parse args ≡ ok filtered
  pub given : read input before ≡ source
  pub ran : compiler_process host compiler input output filtered before ≡ ok (result, after)
  pub code_of : code ≡ result.return_code
  pub made : text ≡ read output after

same : {E : Type 0} {a b : Text} {r : Result E Text} → r ≡ ok a → r ≡ ok b → a ≡ b
same h k = cc

module _ (host : Text → Host) (z : Zstd) (lossless : IsLossless z) (type : CompressionType)
    (level : ℕ) (compiler : Text) (args : List Text) (file source content text : Text)
    (answer : CompileAnswer) where
  pub served-IsCompiled :
      compress z type level source ≡ ok content
      → decompress z answer.output_file.compression_type answer.output_file.content ≡ ok text
      → (s : IsServed host z type compiler args file content answer)
      → IsCompiled (host s.slot.server) compiler args source answer.return_code text
  unfolding compile_request make_compressor
  served-IsCompiled packed unpacked s =
      let request = compile_request s.slot compiler args file content type s.cwd in
      let r =
        (distribute_answers (host s.slot.server) s.peer request s.server s.temps s.status answer
          s.returned).3 in
      let host_lossless = subst IsLossless (sym s.same_filters) lossless in
      let read : decompress (host s.slot.server).zstd type content ≡ ok source =
        subst (λ y. decompress y type content ≡ ok source) (sym s.same_filters)
          (decompress-make_compressor z lossless
            (record { compression_type = type; compression_level = level }) source content
            packed) in
      let written =
        answer_decompresses (host s.slot.server)
          (taken (host s.slot.server) s.peer request s.server) s.peer request answer s.temps
          host_lossless r in
      let unpacked' =
        subst
          (λ y.
            decompress y answer.output_file.compression_type answer.output_file.content ≡ ok text)
          (sym s.same_filters) unpacked in
      record {
        input = r.input.path;
        output = r.output.path;
        filtered = r.args;
        before = r.before.files;
        after = r.after;
        result = r.result;
        parsed = r.parsed;
        given =
            read-two (host s.slot.server).mkdtemp s.promise _ _ _ _ _ _ _ _ _ r.sources r.objects
            ∙ same r.read_in read;
        ran = r.ran;
        code_of = r.code;
        made = same unpacked' written;
      }

-- If the zstd filters are lossless, and every answer that `send` gives is what the `Distribute` of
-- one of the hosts, over these filters and with a `mkdtemp` that makes new directories, returned for
-- its request, then a file that `main` writes is what the compiler of one of these hosts made of the
-- source that the client preprocessed, in one run, with the job's arguments as the server's parser
-- filtered them; the exit code is that of this run.
pub main-IsCompiled :
    (host : Text → Host) (sys : System) (code : ℕ) (path text program : Text) (args : List Text)
    → IsLossless sys.zstd
    → ((compiler : Text) (sent : List Text) (file content : Text) (answer : CompileAnswer)
        → sys.send compiler sent file content ≡ ok answer
        → IsServed host sys.zstd sys.config.compression_type compiler sent file content answer)
    → main sys program args ≡ Exit.remote code (some (path, text))
    → (name : Text) × (args' : List Text) × Called program args name args'
      × (p : Parser) × (client_parse sys.files sys.fuel args' ≡ ok p)
      × (path ≡ p.outfile)
      × (pre : ProcessResult) × (preprocess sys
            (compiler_name sys.build_target name)
            (preprocessor_args sys.build_target name p)
          ≡ ok pre)
      × (server : Text) × IsCompiled
          (host server)
          (compiler_name sys.build_target name)
          (job_args sys.build_target name p)
          pre.stdout
          code
          text
main-IsCompiled host sys code path text program args lossless served h =
    let (name, args', r, called) = (main_remote sys code path text program args h).1 in
    let s = served _ _ _ _ r.answer r.sent in
    let made =
      served-IsCompiled host sys.zstd lossless sys.config.compression_type
        sys.config.compression_level (compiler_name sys.build_target name)
        (job_args sys.build_target name r.p) (filename r.p.infile) r.pre.stdout r.content text
        r.answer r.packed r.unpacked s in
    (name, args', called, r.p, r.parsed, r.target, r.pre, r.ran, s.slot.server, rw r.result made)
