-- ===== src/Tests/Database.antt =====
-- The client's table of servers, and the answer to a query.
use mathlib.Core.Bool.{false≢true}
use distplusplus.Base.{
  ap, ◌≤◌, ◌≡◌, ◌≢◌, ◌↔◌, refl, true, false, [], ◌∷◌, none, some, if◌then◌else◌,
}
use distplusplus.Base.Text.{Text, codes, text_eq, is_one_of, get_lines}
use distplusplus.Base.FilePath.{filename}
use distplusplus.Common.Status.{status_ok}
use distplusplus.Common.Compression.{CompressionType, Zstd}
use distplusplus.Server.Jobs.{Server}
use distplusplus.Server.Requests.{Listing, is_basename, check_compiler_allowed}
use distplusplus.Server.Query.{ServerQuery, QueryAnswer, query, query_answers}
use distplusplus.Server.Distribute.Endures.{IsKnown}
use distplusplus.Common.Arguments.{c_text}
use distplusplus.Client.Database.{
  Value, Table, get, put, supported_compilers, new_compilers, update_server, remove_server,
}
use distplusplus.Client.Database.Entries.Keys.{Field, key}
use distplusplus.Client.Database.Entries.{get-remove_server}

abbrev answer : QueryAnswer
answer = record {
  compiler_supported = true;
  compression_type_supported = true;
  current_load = 7;
  max_jobs = 4;
}

abbrev table : Table
table =
    (codes "b_name", Value.text (codes "b"))
    ∷ (codes "a_supportedCompilers", Value.text (codes "clang/gcc/"))
    ∷ []

-- The entry loses the compiler that the answer does not support.
compilers_updated :
    get (codes "a_supportedCompilers") (
      update_server
        (codes "gcc")
        9
        (codes "a")
        (record answer { compiler_supported = false })
        (0 ∷ [])
        table)
    ≡ some (Value.text (codes "clang/"))
unfolding update_server get put supported_compilers c_text new_compilers get_lines text_eq
compilers_updated = refl

names_differ : codes "b" ≢ codes "a"
unfolding text_eq
names_differ e = false≢true (ap (λ t. text_eq t (codes "a")) e)

get-remove_server_example :
    get (key (codes "b") Field.name) (remove_server (codes "a") table)
    ≡ (if text_eq (codes "b") (codes "a") then none else get (key (codes "b") Field.name) table)
get-remove_server_example = get-remove_server (codes "a") table (codes "b") Field.name

icc_unlisted : is_one_of (codes "icc") (get_lines b'/' (codes "clang/gcc/")) ≡ false
unfolding is_one_of get_lines text_eq
icc_unlisted = refl

abbrev no_zstd : Zstd
no_zstd = record { enabled = false; compressor = λ level input. none; decompressor = λ input. none }

abbrev directory : Text → Listing
directory p =
    if text_eq p (codes "/usr/lib/distcc")
    then Listing.entries (record { name = codes "gcc"; is_symlink = true } ∷ [])
    else Listing.no_directory

abbrev server : Server
server = record {
  compressor_factory = record { compression_type = CompressionType.none; compression_level = 1 };
  jobs_max = 2;
  reservation_timeout = 1;
  jobs_running = 0;
  reservations = [];
}

abbrev asked : ServerQuery
asked = record { compiler = codes "gcc"; desired_compression_type = CompressionType.zstd }

abbrev told : QueryAnswer
told = record {
  compiler_supported = true;
  compression_type_supported = false;
  current_load = 100;
  max_jobs = 2;
}

queried : query no_zstd directory (λ jobs. some 350) server asked ≡ some (status_ok, told)
unfolding query is_basename check_compiler_allowed filename text_eq
queried = refl

query_answers_example :
    (told.current_load ≤ 100)
    × (told.max_jobs ≡ server.jobs_max)
    × ((false ≡ true) ↔ IsKnown no_zstd CompressionType.zstd)
query_answers_example =
    query_answers no_zstd directory (λ jobs. some 350) server asked status_ok told queried refl
