-- ===== src/Lib.antt =====
-- distplusplus distributes the compilation of C and C++ sources: a client stands in for the
-- compiler, preprocesses on its own host, reserves a job slot on a server and sends it the job; the
-- server checks the job, runs its own compiler and returns the object file.
--
-- Parts and files, with paths from the repository's root:
--   Base                    numbers, lists, results; Base/Text, Base/FilePath, Base/Words and
--                           Base/Numerals stand for the members of std::string, std::filesystem::path
--                           and the C library that the code calls, and Base/FileSystem for the files.
--   Common/Constants        common/constants.hpp: the argument tables of both sides.
--   Common/Compression      common/compression_helper.cpp: Compressor, CompressorFactory, Decompressor.
--   Common/Tempfile         common/tempfile.cpp: Tempfile from constructor (`new_tempfile`) to destructor
--                           (`destroy`), setTempDir, and the terminate handler `tempfile_cleaner`.
--   Common/Process          common/process_helper.cpp: ProcessHelper; assertAndRaise.
--   Common/Arguments        common/argsvec.hpp: Arg and ArgsVec.
--   Common/ScopeGuard       common/scopeguard.hpp: ScopeGuard.
--   Common/Status, Logging  common/common.cpp: mapGRPCStatus, initBoostLogging.
--   Server/Parser           server/parser.cpp: Parser::parse is `parse_loop`, its tests `verdict`.
--   Server/Reservations     server/server.hpp: the multiset of reservations.
--   Server/Jobs             server/server.cpp: the members of Server, the constructor, Reserve
--                           (`reserve`), and the atomic pieces of Reserve, Distribute and
--                           reservationReaper.
--   Server/Threads          the same pieces, interleaved by a scheduler: `step` and `run`.
--   Server/Requests         sanitizeFile, sanitizeRequest, checkCompilerAllowed; the messages of
--                           protos/distplusplus.proto.
--   Server/Distribute       Distribute: `distribute`, and `process` for what is under its guard.
--                           The scopes of its temporary files end by `leave`, its exceptions in `caught`.
--   Server/Query            Query.
--   Server/Config           server/config.cpp: getFromEnv, getConfig.
--   Server/Main             server/main.cpp: main (`launch`, then `advance_from`), signalHandler and
--                           signalReaper, interleaved by `run`.
--   Client/Parser           client/parser.cpp: parseArgs is `parse_loop`, readArgsFile `read_args`,
--                           the constructor `parse`.
--   Client/Command          client/main.cpp: the compiler's name and the arguments in func; mapCompiler.
--   Client/Sending          client/client.cpp: Client::reserve and Client::send.
--   Client/Database         client/client.cpp: updateServer and removeServer.
--   Client/Registry         client/client.cpp: QueryHelper::init; its transactions are `init_store`.
--   Client/Config           client/config.cpp: the readers and the constructor.
--   Client/Factory          client/client.cpp: Client's constructors and ClientFactory.
--   Client/Input            client/main.cpp: stdin_empty, and what the local fallback reads of stdin.
--   Client/Main             client/main.cpp: func and main.
--   Agreement               the client against the server: the arguments and names of a request, the
--                           search for a slot, and a compilation from the command line to the object
--                           file: EndToEnd says what a file is that was written, Works when one is.
--   Tests                   runs on small inputs.
--
-- Text is a list of bytes. The counter of the server and all 64-bit arithmetic wrap at 2 ^ 64. Code
-- outside the repository is a parameter: the zstd filters, gRPC's replies, the directories, mkdtemp,
-- what Boost says of a path, the start of programs and what they do to the files, the environment, the
-- clock, what LMDB's memory has behind a value, and the parsers of options and TOML. A `char` is signed,
-- as on x86-64. Files are a map from paths to texts and directories; a write succeeds, and which
-- removals the system refuses is a parameter.
--
-- Two models are bounded where the code is not. `parse` bounds how deep argument files may name one
-- another; Client/Parser/ArgsFiles says which bound is enough and for which files none is. `passes`
-- bounds the passes over the servers; Client/Sending/Ends bounds them by the clock.
--
-- Not modelled: log output, failures of LMDB itself, boost::process behind ProcessHelper, the wait of a
-- thread for a lock, the race of several threads on the list of temporary files, and the server's wait
-- for its reaper when it returns.
pub mod Base
pub mod Common
pub mod Server
pub mod Client
pub mod Agreement
mod Tests
