-- ===== src/Tests/Distribute.antt =====
-- Jobs sent to the hosts of Tests/Hosts.
use distplusplus.Base.{
  Bool-cases, inl, inr, ◌+◌, ◌≡◌, ◌≢◌, refl, true, false, List, [], ◌∷◌, some, ok, arith,
}
use distplusplus.Base.Text.{Text, codes, text_eq, is_empty, is_one_of, starts_with_any}
use distplusplus.Base.FilePath.{filename, parent_path}
use distplusplus.Base.FileSystem.{
  Files, lookup, del, put, has_child, read, remove, remove_node, is_fresh,
}
use distplusplus.Common.Constants.{
  single_args_no_distribute, multi_args_no_distribute, single_args_no_distribute_starts_with,
  single_args_cpp, multi_args_cpp, single_args_cpp_starts_with,
}
use distplusplus.Common.Status.{status_ok}
use distplusplus.Common.Compression.{CompressionType, compress, make_compressor, decompress}
use distplusplus.Common.Compression.RoundTrip.{IsLossless}
use distplusplus.Common.Process.{ProcessResult, process_helper, assert_and_raise, started}
use distplusplus.Common.Tempfile.{
  template, make_in, create_file_name, write_content, new_tempfile, removed, destroy_directory,
  destroy,
}
use distplusplus.Server.Parser.{verdict, parse}
use distplusplus.Server.Reservations.{erase_uuid}
use distplusplus.Server.Reservations.Members.{is_reserved}
use distplusplus.Server.Jobs.{Server, take_reservation, release_job}
use distplusplus.Server.Requests.{
  CompileRequest, CompileAnswer, sanitize_request, check_compiler_allowed, IsReadable,
}
use distplusplus.Server.Distribute.{
  Outcome, delimited, caught, compiler_process, process, distribute,
}
use distplusplus.Server.Distribute.Slots.{taken, distribute_frees}
use distplusplus.Server.Distribute.Answers.{IsRun, distribute_answers}
use distplusplus.Server.Distribute.Crashes.{IsFatal, distribute-terminates}
use distplusplus.Server.Distribute.Endures.{distribute-ne-terminates}
use distplusplus.Server.Distribute.Cleanup.{distribute_cleans}
use distplusplus.Server.Distribute.Completes.{distribute_completes}
use distplusplus.Server.Distribute.Leftover.{distribute_leftover}
use distplusplus.Tests.Hosts.{
  marking, host, temps, longer, patient, patient-IsOrderly, fresh-IsOrderly, fresh_name-MakesFresh,
  reporting, reporting_more,
}

abbrev busy : Server
busy = record {
  compressor_factory = record { compression_type = CompressionType.zstd; compression_level = 1 };
  jobs_max = 2;
  reservation_timeout = 1;
  jobs_running = 1;
  reservations = record { uuid = codes "a"; time = 3 } ∷ [];
}

abbrev request : CompileRequest
request = record {
  uuid = codes "a";
  compiler = codes "gcc";
  input_file = record {
    name = codes "x.c";
    compression_type = CompressionType.zstd;
    content = codes "zint x;";
  };
  cwd = codes "/";
  argument = codes "-O2" ∷ codes "-c" ∷ [];
}

abbrev peer : Text
peer = codes "unix:/run/s"

abbrev answer : CompileAnswer
answer = record {
  return_code = 0;
  stdout = [];
  stderr = codes "warning";
  output_file = record {
    name = codes "/tmp/unix:-run-sXXXXXX1/x.c.o";
    compression_type = CompressionType.zstd;
    content = codes "zint x;";
  };
  current_load = 0;
}

answered : (distribute host peer request busy temps).1 ≡ Outcome.returns status_ok (some answer)
unfolding distribute take_reservation release_job erase_uuid sanitize_request check_compiler_allowed
    delimited decompress make_compressor compress new_tempfile create_file_name template make_in
    write_content destroy destroy_directory removed remove remove_node lookup del put has_child read
    is_fresh parent_path process_helper assert_and_raise started parse verdict text_eq is_empty
    is_one_of starts_with_any filename single_args_no_distribute multi_args_no_distribute
    single_args_no_distribute_starts_with single_args_cpp multi_args_cpp single_args_cpp_starts_with
answered = refl

distribute_answers_example :
    (is_reserved (codes "a") busy.reservations ≡ true)
    × (sanitize_request request ≡ true)
    × (check_compiler_allowed host.directory (codes "gcc") ≡ some true)
    × IsRun host (taken host peer request busy) peer request answer temps
distribute_answers_example =
    distribute_answers host peer request busy temps status_ok answer answered

marking-IsLossless : IsLossless marking
marking-IsLossless level input out h = cc

listed : is_reserved (codes "a") busy.reservations ≡ true
unfolding is_reserved text_eq
listed = refl

distribute_frees_example :
    let (s', outcome, t') = distribute host peer request busy temps in
    (s'.reservations ≡ erase_uuid (codes "a") busy.reservations)
    × (s'.jobs_running + 1 ≡ 1)
    × (outcome ≡ (caught host (process host (taken host peer request busy) peer request temps)).0)
    × (t' ≡ (caught host (process host (taken host peer request busy) peer request temps)).1)
distribute_frees_example =
    distribute_frees host peer request busy temps (omega arith) (omega arith) listed

abbrev stranger : CompileRequest
stranger = record request { uuid = codes "b" }

unlisted : is_reserved (codes "b") busy.reservations ≡ false
unfolding is_reserved text_eq
unlisted = refl

request_clean : sanitize_request request ≡ true
unfolding sanitize_request text_eq filename
request_clean = refl

allowed : check_compiler_allowed host.directory (codes "gcc") ≡ some true
unfolding check_compiler_allowed text_eq
allowed = refl

abbrev nameless : CompileRequest
nameless = record request {
  input_file = record {
    name = [];
    compression_type = CompressionType.none;
    content = codes "int x;";
  };
}

nameless_clean : sanitize_request nameless ≡ true
unfolding sanitize_request text_eq filename
nameless_clean = refl

nameless_read : decompress marking CompressionType.none (codes "int x;") ≡ ok (codes "int x;")
unfolding decompress
nameless_read = refl

distribute-terminates_example : (distribute host peer nameless busy temps).1 ≡ Outcome.terminates
distribute-terminates_example =
    distribute-terminates host busy peer nameless temps listed nameless_clean allowed
      (IsFatal.no_name (codes "int x;") nameless_read refl)

request_read : decompress marking CompressionType.zstd (codes "zint x;") ≡ ok (codes "int x;")
unfolding decompress
request_read = refl

request_parsed : parse request.argument ≡ ok (codes "-O2" ∷ codes "-c" ∷ [])
unfolding parse verdict text_eq is_one_of starts_with_any single_args_no_distribute
    multi_args_no_distribute single_args_no_distribute_starts_with single_args_cpp multi_args_cpp
    single_args_cpp_starts_with
request_parsed = refl

compressed :
    (t : Text) → (out : Text) × (make_compressor marking busy.compressor_factory t ≡ ok out)
unfolding make_compressor compress
compressed t = (b'z' ∷ t, refl)

named : is_empty (codes "x.c") ≡ false
unfolding is_empty
named = refl

starts :
    (input output : Text) (args : List Text) (files : Files)
    → (r : ProcessResult × Files) × (compiler_process patient (codes "gcc") input output args files
        ≡ ok r)
unfolding compiler_process process_helper assert_and_raise started is_empty
starts input output args files = (_, refl)

patient-IsReadable : (p : Text) → IsReadable (patient.directory p)
patient-IsReadable p = elim (Bool-cases (text_eq p (codes "/usr/lib/distcc"))) [
  | inl e ↦ rw e tt
  | inr e ↦ rw e tt
]

distribute-ne-terminates_example :
    (distribute patient peer request busy temps).1 ≢ Outcome.terminates
distribute-ne-terminates_example =
    distribute-ne-terminates patient busy peer request temps refl named patient-IsReadable (record {
      orderly = patient-IsOrderly;
      makes = λ t files. (longer t files, refl);
      starts = starts;
      packs = compressed;
    })

distribute_completes_example :
    (answer : CompileAnswer) × ((distribute patient peer request busy temps).1
      ≡ Outcome.returns status_ok (some answer))
distribute_completes_example =
    distribute_completes patient peer request busy temps listed
      (record {
        orderly = patient-IsOrderly;
        makes = λ t files. (longer t files, refl);
        starts = starts;
        packs = compressed;
      })
      (record {
        clean = request_clean;
        named = named;
        allowed = allowed;
        data_text = codes "int x;";
        read_in = request_read;
        args = codes "-O2" ∷ codes "-c" ∷ [];
        parsed = request_parsed;
      })

distribute_cleans_example : (distribute host peer request busy temps).2.files ≡ []
distribute_cleans_example =
    distribute_cleans host fresh-IsOrderly peer request busy temps status_ok (some answer) answered

distribute_leftover_example : (distribute reporting peer request busy temps).1 ≡ Outcome.terminates
distribute_leftover_example =
    distribute_leftover reporting busy peer request temps (codes "int x;")
      (codes "-O2" ∷ codes "-c" ∷ []) fresh_name-MakesFresh (λ p. refl) reporting_more listed
      request_clean allowed request_read request_parsed
