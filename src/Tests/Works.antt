-- ===== src/Tests/Works.antt =====
-- A wrapped gcc whose job goes to the second of two servers, in the second pass over them.
use distplusplus.Base.{ℕ, ◌≡◌, refl, true, false, [], ◌∷◌, some, none, ok, arith}
use distplusplus.Base.Text.{
  Text, codes, has_text, text_eq, text_eq_refl, is_empty, has_char, is_one_of, starts_with_any,
  after_first,
}
use distplusplus.Base.FilePath.{filename, stem, extension}
use distplusplus.Common.Constants.{
  Language, single_args_no_distribute, single_args_no_distribute_starts_with,
  multi_args_no_distribute, multi_args_cpp, single_args_cpp, single_args_cpp_starts_with,
  input_file_extension, input_file_extension_c, input_file_extension_cxx,
}
use distplusplus.Common.Status.{Status, StatusCode, status}
use distplusplus.Common.Compression.{CompressionType, compress, decompress, make_compressor}
use distplusplus.Common.Process.{ProcessResult, process_helper, assert_and_raise, started}
use distplusplus.Server.Reservations.Members.{is_reserved}
use distplusplus.Server.Jobs.{Server}
use distplusplus.Server.Parser.Filters.{
  banned, takes_value, stands_alone, is_plain, is_plain→IsPlain,
}
use distplusplus.Server.Requests.{CompileRequest, CompileAnswer, check_compiler_allowed}
use distplusplus.Server.Distribute.{Host, Outcome, compiler_process}
use distplusplus.Server.Distribute.Cleanup.{IsOrderly}
use distplusplus.Server.Distribute.Endures.{IsReady}
use distplusplus.Client.Parser.{
  Parser, kind, forbidden, option_step, take_value, check_input_file_candidate, detect_language,
  conclude, check_job, with_language, parse_loop, parse_args, parse as client_parse,
}
use distplusplus.Client.Command.{
  map_compiler, compiler_for, compiler_name, preprocessor_args, job_args,
}
use distplusplus.Client.Sending.{Slot}
use distplusplus.Client.Input.{stdin_empty, tested, read_byte, given_back}
use distplusplus.Client.Main.{System, Exit, preprocess, main}
use distplusplus.Client.Main.Completes.{output_of}
use distplusplus.Agreement.Tables.{IsQuiet}
use distplusplus.Agreement.EndToEnd.{IsCompiled}
use distplusplus.Agreement.Served.{Keeps, sent}
use distplusplus.Agreement.Works.{job_sent, main_compiles}
use distplusplus.Tests.Hosts.{marking, patient, patient-IsOrderly, longer, temps}
use distplusplus.Tests.Main.{distant, system, command, target_plain}
use distplusplus.Agreement.Vacancy.{IsVacant}
use distplusplus.Tests.Vacancy.{state, drawn, asked, free_later, in_time, with_jobs}

abbrev willing : Host
willing = record patient { directory = distant.directory }

abbrev tick : ℕ → Text → ℕ
tick i server = i

abbrev clock : ℕ → ℕ
clock i = i

-- The server when the job comes.
abbrev holding : Text → Server
holding server = record (with_jobs 2) {
  reservations = record { uuid = drawn 0 server; time = 1 } ∷ [];
}

abbrev blank_answer : CompileAnswer
blank_answer = record {
  return_code = 0;
  stdout = [];
  stderr = [];
  output_file = record { name = []; compression_type = CompressionType.none; content = [] };
  current_load = 0;
}

abbrev wire : Outcome → Status × CompileAnswer
wire (Outcome.returns st (some a)) = (st, a)
wire (Outcome.returns st none) = (st, blank_answer)
wire Outcome.terminates = (status StatusCode.unavailable [], blank_answer)

abbrev connected : System
connected = record system {
  send = λ compiler job file data_text.
      sent state drawn tick clock asked 0 10 holding (λ server. willing) (codes "c")
        (λ server. temps) wire compiler job file data_text CompressionType.zstd [] 2;
}

abbrev parsed_job : Parser
parsed_job = record {
  args = codes "-O2" ∷ [];
  mode_arg = codes "-c";
  infile = codes "a.c";
  outfile = codes "a.o";
  target = none;
  can_distribute = some true;
  language = Language.c;
}

command_parsed : client_parse system.files 0 command ≡ ok parsed_job
unfolding client_parse parse_args parse_loop option_step kind forbidden take_value
    check_input_file_candidate detect_language conclude check_job with_language text_eq is_empty
    has_char is_one_of starts_with_any filename stem extension after_first single_args_no_distribute
    single_args_no_distribute_starts_with multi_args_no_distribute multi_args_cpp
    input_file_extension input_file_extension_c input_file_extension_cxx
command_parsed = refl

target-IsQuiet : IsQuiet (codes "x86_64")
unfolding is_plain text_eq banned takes_value stands_alone is_one_of starts_with_any
    single_args_no_distribute multi_args_no_distribute single_args_no_distribute_starts_with
    single_args_cpp multi_args_cpp single_args_cpp_starts_with
target-IsQuiet = record { plain = is_plain→IsPlain (codes "x86_64") refl; no_compile = refl }

willing-IsOrderly : IsOrderly willing
unfolding compiler_process
willing-IsOrderly = record {
  promise = patient-IsOrderly.promise;
  allowed = patient-IsOrderly.allowed;
  tidy = patient-IsOrderly.tidy;
}

abbrev asked_for : Slot → CompileRequest
asked_for slot =
    job_sent state drawn tick clock asked 0 holding (λ server. willing) (codes "c")
      (λ server. temps) wire connected (codes "/usr/bin/gcc") command parsed_job []
      (codes "zint x;") slot

packs :
    (server t : Text)
    → (out : Text) × (make_compressor marking (holding server).compressor_factory t ≡ ok out)
unfolding make_compressor compress
packs server t = (b'z' ∷ t, refl)

willing-IsReady : (slot : Slot) → IsReady willing (holding slot.server) (codes "c") (asked_for slot)
unfolding compiler_process process_helper assert_and_raise started is_empty
willing-IsReady slot = record {
  orderly = willing-IsOrderly;
  makes = λ t files. (longer t files, refl);
  starts = λ input output args files. (_, refl);
  packs = packs slot.server;
}

gcc_allowed :
    check_compiler_allowed willing.directory
      (compiler_name (codes "x86_64") (stem (codes "/usr/bin/gcc")))
    ≡ some true
unfolding check_compiler_allowed has_text compiler_name compiler_for map_compiler stem filename
    text_eq starts_with_any
gcc_allowed = refl

holding-Keeps : Keeps state drawn tick clock asked 0 10 holding 1
unfolding is_reserved
holding-Keeps n server le h = rw (text_eq_refl (drawn 0 server)) refl

abbrev source_text : ProcessResult
source_text = record { return_code = 0; stdout = codes "int x;"; stderr = [] }

preprocessed_source :
    preprocess connected
      (compiler_name (codes "x86_64") (stem (codes "/usr/bin/gcc")))
      (preprocessor_args (codes "x86_64") (stem (codes "/usr/bin/gcc")) parsed_job)
    ≡ ok source_text
unfolding preprocess process_helper assert_and_raise started
preprocessed_source = refl

nothing_typed : (stdin_empty system.stdin).0 ≡ true
unfolding stdin_empty tested read_byte given_back
nothing_typed = refl

not_wrapper : text_eq (stem (codes "/usr/bin/gcc")) (codes "distplusplus") ≡ false
unfolding text_eq stem filename
not_wrapper = refl

source_packed : compress marking CompressionType.zstd 1 (codes "int x;") ≡ ok (codes "zint x;")
unfolding compress
source_packed = refl

main_compiles_example :
    (slot : Slot) × IsVacant state drawn tick clock asked 0 10 0 1 slot
    × (answer : CompileAnswer) × (text : Text) × (main connected (codes "/usr/bin/gcc") command
        ≡ Exit.remote answer.return_code (output_of parsed_job answer text))
    × (decompress marking answer.output_file.compression_type answer.output_file.content ≡ ok text)
    × IsCompiled willing
        (compiler_name (codes "x86_64") (stem (codes "/usr/bin/gcc")))
        (job_args (codes "x86_64") (stem (codes "/usr/bin/gcc")) parsed_job)
        (codes "int x;")
        answer.return_code
        text
main_compiles_example =
    main_compiles state drawn tick clock asked 0 holding (λ server. willing) (codes "c")
      (λ server. temps) wire connected (codes "/usr/bin/gcc") command parsed_job []
      (codes "zint x;") 1 2 (codes "b") source_text
      (record {
        parsed = command_parsed;
        allowed = refl;
        no_target = refl;
        compiles = refl;
        quiet = target-IsQuiet;
        plain = target_plain;
      })
      not_wrapper nothing_typed preprocessed_source refl source_packed
      (λ compiler job file data_text. refl) (λ level input out h. cc) (λ server. refl)
      (λ server. gcc_allowed) willing-IsReady (omega arith) in_time free_later holding-Keeps
      (λ st a. refl)
