-- ===== src/Tests/Main.antt =====
-- A gcc that is wrapped, with one host; and its local fallback.
use distplusplus.Base.{
  ◌≡◌, refl, true, false, List, [], ◌∷◌, ◌++◌, none, some, Result, ok, err, if◌then◌else◌,
}
use distplusplus.Base.Text.{
  Text, codes, text_eq, is_empty, starts_with, has_char, has_text, is_one_of, starts_with_any,
  after_first,
}
use distplusplus.Base.FilePath.{filename, stem, extension, parent_path}
use distplusplus.Base.FileSystem.{lookup, del, put, has_child, read, remove, remove_node, is_fresh}
use distplusplus.Common.Constants.{
  single_args_no_distribute, single_args_no_distribute_starts_with, multi_args_no_distribute,
  multi_args_cpp, single_args_cpp, single_args_cpp_starts_with, input_file_extension,
  input_file_extension_c, input_file_extension_cxx,
}
use distplusplus.Common.Status.{Status}
use distplusplus.Common.Compression.{CompressionType, compress, make_compressor, decompress}
use distplusplus.Common.Process.{ProcessResult, process_helper, assert_and_raise, started}
use distplusplus.Common.Tempfile.{
  template, make_in, create_file_name, write_content, new_tempfile, removed, destroy_directory,
  destroy,
}
use distplusplus.Server.Reservations.{erase_uuid}
use distplusplus.Server.Jobs.{Server, take_reservation}
use distplusplus.Server.Parser.{verdict, parse as server_parse}
use distplusplus.Server.Requests.{Listing, CompileAnswer, sanitize_request, check_compiler_allowed}
use distplusplus.Server.Distribute.{Host, Outcome, delimited, distribute}
use distplusplus.Client.Parser.{
  Parser, kind, forbidden, option_step, take_value, check_input_file_candidate, detect_language,
  conclude, check_job, with_language, parse_loop, parse_args, parse as client_parse,
}
use distplusplus.Client.Command.{
  map_compiler, compiler_for, compiler_name, target_args, common_args, preprocessor_args, job_args,
}
use distplusplus.Client.Sending.{Failure, Slot, compile_request}
use distplusplus.Client.Input.{
  at, contents, local_input, local_input-swapped, stdin_empty, tested, read_byte, given_back,
}
use distplusplus.Client.Main.{
  System, receive, transmit, preprocess, preprocessed, wrap, func, fallback, finish, Exit, main,
}
use distplusplus.Client.Main.Remote.{IsRemote, Called, main_remote}
use distplusplus.Tests.Hosts.{marking, host, temps, fresh_name-MakesFresh}
use distplusplus.Agreement.EndToEnd.{IsServed, IsCompiled, main-IsCompiled}
use distplusplus.Agreement.Names.{sanitize_request-compile_request}

abbrev pub distant : Host
distant = record host {
  directory = λ p.
      if text_eq p (codes "/usr/lib/distcc")
      then Listing.entries (record { name = codes "x86_64-gcc"; is_symlink = true } ∷ [])
      else Listing.no_directory;
}

abbrev server : Server
server = record {
  compressor_factory = record { compression_type = CompressionType.zstd; compression_level = 1 };
  jobs_max = 2;
  reservation_timeout = 1;
  jobs_running = 1;
  reservations = record { uuid = codes "u"; time = 3 } ∷ [];
}

abbrev slot : Slot
slot = record { server = codes "h"; uuid = codes "u" }

abbrev answer_of : Outcome → Result Failure CompileAnswer
answer_of (Outcome.returns st (some answer)) = ok answer
answer_of (Outcome.returns st none) = err Failure.refused
answer_of Outcome.terminates = err Failure.refused

answer_of_inv :
    (o : Outcome) (answer : CompileAnswer)
    → answer_of o ≡ ok answer
    → (st : Status) × (o ≡ Outcome.returns st (some answer))
answer_of_inv (Outcome.returns st (some a)) answer h = (st, cc)
answer_of_inv (Outcome.returns st none) answer h = cc
answer_of_inv Outcome.terminates answer h = cc

abbrev pub system : System
system = record {
  build_target = codes "x86_64";
  files = record { is_regular_file = λ p. some (text_eq p (codes "a.c")); contents = λ p. [] };
  fuel = 0;
  zstd = marking;
  config = record {
    state_dir = codes "/root";
    servers = codes "h" ∷ [];
    reservation_attempt_timeout = 10;
    compression_type = CompressionType.zstd;
    compression_level = 1;
    fallback = true;
  };
  processes = record { ndebug = true; has_filename = λ p. true; is_regular_file = λ p. true };
  launch =
      λ program args stdin. some (record { return_code = 0; stdout = codes "int x;"; stderr = [] });
  send = λ compiler args file content.
      answer_of
        (distribute distant (codes "c")
          (compile_request slot compiler args file content CompressionType.zstd []) server temps).1;
  stdin = at 0 0 0 [] [];
  later = λ s. s;
  search_path = λ name. codes "/usr/bin/" ++ name;
  exists = λ path. true;
}

served :
    (compiler : Text) (sent : List Text) (file content : Text) (answer : CompileAnswer)
    → system.send compiler sent file content ≡ ok answer
    → IsServed (λ name. distant) marking CompressionType.zstd compiler sent file content answer
served compiler sent file content answer h =
    let (st, e) = answer_of_inv _ answer h in
    record {
      server = server;
      temps = temps;
      peer = codes "c";
      slot = slot;
      cwd = [];
      status = st;
      same_filters = refl;
      promise = fresh_name-MakesFresh;
      returned = e;
    }

abbrev pub command : List Text
command = codes "-O2" ∷ codes "-c" ∷ codes "a.c" ∷ []

compiled :
    main system (codes "/usr/bin/gcc") command ≡ Exit.remote 0 (some (codes "a.o", codes "int x;"))
unfolding main stdin_empty tested read_byte given_back func wrap transmit receive finish
    client_parse kind forbidden option_step take_value check_input_file_candidate detect_language
    conclude check_job with_language parse_loop parse_args map_compiler compiler_for compiler_name
    target_args common_args preprocessor_args job_args compile_request distribute take_reservation
    erase_uuid sanitize_request check_compiler_allowed delimited decompress make_compressor compress
    new_tempfile create_file_name template make_in write_content destroy destroy_directory removed
    remove remove_node lookup del put has_child read is_fresh parent_path process_helper
    assert_and_raise started preprocess preprocessed server_parse verdict text_eq is_empty
    starts_with has_char has_text is_one_of starts_with_any filename stem extension after_first
    single_args_no_distribute single_args_no_distribute_starts_with multi_args_no_distribute
    multi_args_cpp single_args_cpp single_args_cpp_starts_with input_file_extension
    input_file_extension_c input_file_extension_cxx
compiled = refl

main-IsCompiled_example :
    (name : Text) × (args' : List Text) × Called (codes "/usr/bin/gcc") command name args'
    × (p : Parser) × (client_parse system.files 0 args' ≡ ok p)
    × (codes "a.o" ≡ p.outfile)
    × (pre : ProcessResult) × (preprocess system
          (compiler_name (codes "x86_64") name)
          (preprocessor_args (codes "x86_64") name p)
        ≡ ok pre)
    × (server : Text) × IsCompiled distant
        (compiler_name (codes "x86_64") name)
        (job_args (codes "x86_64") name p)
        pre.stdout
        0
        (codes "int x;")
main-IsCompiled_example =
    main-IsCompiled (λ name. distant) system 0 (codes "a.o") (codes "int x;") (codes "/usr/bin/gcc")
      command (λ level input out h. cc) served compiled

main_remote_example :
    ((stdin_empty system.stdin).0 ≡ true)
    × ((name : Text) × (args' : List Text) × IsRemote system 0
          (codes "a.o")
          (codes "int x;")
          name
          args'
        × Called (codes "/usr/bin/gcc") command name args')
main_remote_example =
    main_remote system 0 (codes "a.o") (codes "int x;") (codes "/usr/bin/gcc") command compiled

abbrev with_input : System
with_input = record system { stdin = at 0 0 0 [] (codes "int x;") }

local_input-swapped_example :
    ((stdin_empty (at 0 0 0 [] (codes "int x;"))).0 ≡ false)
    × ((stdin_empty (at 0 0 0 [] (codes "int x;"))).1.flags ≡ 0)
    × (contents (stdin_empty (at 0 0 0 [] (codes "int x;"))).1 ≡ codes "int x;")
    × (local_input (λ s. s) (at 0 0 0 [] (codes "int x;")) ≡ codes "nit x;")
unfolding is_empty
local_input-swapped_example = local_input-swapped 0 0 0 refl (λ s. s) (codes "int x;") refl

pub target_plain : has_char (codes "x86_64") b'/' ≡ false
unfolding has_char
target_plain = refl

sanitize_request-compile_request_example :
    sanitize_request (
      compile_request slot
        (compiler_name (codes "x86_64") (stem (codes "/usr/bin/gcc")))
        command
        (filename (codes "src/a.c"))
        (codes "int x;")
        CompressionType.none
        (codes "/"))
    ≡ true
sanitize_request-compile_request_example =
    sanitize_request-compile_request (codes "x86_64") (codes "/usr/bin/gcc") (codes "src/a.c") slot
      command (codes "int x;") CompressionType.none (codes "/") target_plain
