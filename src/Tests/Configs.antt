-- ===== src/Tests/Configs.antt =====
-- Configurations of a server with eight cores and of a client with one host.
use distplusplus.Base.{
  ◌+◌, ◌≤◌, length, ◌<◌, ◌-◌, ◌^◌, ◌≡◌, ◌⊎◌, refl, true, false, [], ◌∷◌, Option, none, some, ok,
  arith, if◌then◌else◌,
}
use distplusplus.Base.Text.{Text, codes, text_eq}
use distplusplus.Base.Words.{to_text}
use distplusplus.Base.Numerals.{strtoull}
use distplusplus.Common.Compression.{CompressionType, CompressorFactory}
use distplusplus.Common.Logging.{init_boost_logging}
use distplusplus.Server.Jobs.{Server, new_server}
use distplusplus.Server.Config.{
  Config, Options, unsigned_from_env, signed_from_env, text_from_env, value_or, log_level,
  compression, positive, get_config,
}
use distplusplus.Server.Config.Sound.{get_config_jobs}
use distplusplus.Server.Main.{fresh_process, of_exit, of_thrown, launch}
use distplusplus.Server.Main.Launched.{launch_bounded}
use distplusplus.Server.Threads.{Phase, Reaper, World, Event, check_from, step, run}
use distplusplus.Server.Threads.Counts.{holds_job, total}
use distplusplus.Server.Threads.Reachable.{start}
use distplusplus.Client.Config.{
  Toml, get_fallback, get_servers, get_timeout, compression_string, compression_named,
  get_compression_level, get_state_dir, get_config_file, new_config, Config as ClientConfig,
}

abbrev options : Options
options = record {
  compress = some (codes "zstd");
  compression_level = none;
  help = false;
  jobs = some 2;
  listen_address = none;
  log_level = none;
  reservation_timeout = none;
}

abbrev env : Text → Option Text
env name = if text_eq name (codes "DISTPLUSPLUS_JOBS") then some (codes "24") else none

abbrev config : Config
config = record {
  compression_type = CompressionType.zstd;
  compression_level = 1;
  max_jobs = 24;
  listen_address = codes "127.0.0.1:3633";
  reservation_timeout = 1;
}

configured : get_config 8 (codes "NONE") env options ≡ ok config
unfolding get_config log_level init_boost_logging compression positive value_or text_from_env
    unsigned_from_env signed_from_env strtoull text_eq
configured = refl

abbrev factory : CompressorFactory
factory = record { compression_type = CompressionType.zstd; compression_level = 1 }

abbrev served : Server
served = record {
  compressor_factory = factory;
  jobs_max = 24;
  reservation_timeout = 1;
  jobs_running = 0;
  reservations = [];
}

launched : launch 8 (codes "NONE") env options false (λ a. true) ≡ ok (served, fresh_process)
unfolding launch of_exit of_thrown new_server get_config log_level init_boost_logging compression
    positive value_or text_from_env unsigned_from_env signed_from_env strtoull text_eq
launched = refl

abbrev checked : World
checked = record {
  server = served;
  threads = Phase.checked ∷ Phase.idle ∷ [];
  reaper = Reaper.awake;
  clock = 0;
}

checks : run (start served 2 0) (Event.check 0 ∷ []) ≡ some checked
unfolding run step start check_from
checks = refl

launch_bounded_example :
    (0 < 24)
    × ((served.compressor_factory.compression_type ≡ CompressionType.none)
        ⊎ (served.compressor_factory.compression_type ≡ CompressionType.zstd))
    × (length checked.server.reservations + total holds_job checked.threads ≤ 0)
    × (0 < 24 + 2)
launch_bounded_example =
    launch_bounded 8 (codes "NONE") env options false (λ a. true) served fresh_process launched 2 0
      (Event.check 0 ∷ []) (omega arith) checks

written : env (codes "DISTPLUSPLUS_JOBS") ≡ some (to_text 24)
unfolding text_eq to_text
written = refl

get_config_jobs_example : config.max_jobs ≡ 24
get_config_jobs_example =
    get_config_jobs 8 (codes "NONE") env options config 24 written (omega arith) configured

abbrev file : Toml
file = record {
  servers = some (some (codes "h:1") ∷ []);
  timeout = none;
  compress = none;
  compression_level = some 3;
  fallback = some false;
}

abbrev home : Text → Option Text
home name = if text_eq name (codes "HOME") then some (codes "/root") else none

abbrev client : ClientConfig
client = record {
  state_dir = codes "/root/.local/state/distplusplus";
  servers = codes "h:1" ∷ [];
  reservation_attempt_timeout = 10;
  compression_type = CompressionType.zstd;
  compression_level = 3;
  fallback = false;
}

client_configured : new_config home (λ p. true) (λ p. ok file) (codes "zstd") ≡ ok client
unfolding new_config get_state_dir get_config_file get_servers get_timeout compression_string
    compression_named get_compression_level get_fallback text_eq
client_configured = refl

-- No digits, a sign, and a number that does not fit.
numbers_read :
    (strtoull (codes "many") ≡ (0, 0))
    × (strtoull (codes " -1") ≡ (2 ^ 64 - 1, 0))
    × (strtoull (codes "18446744073709551616") ≡ (2 ^ 64 - 1, 34))
unfolding strtoull
numbers_read = (refl, refl, refl)
