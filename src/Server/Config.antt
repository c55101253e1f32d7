-- ===== src/Server/Config.antt =====
-- src/server/config.hpp and config.cpp: the server's configuration. The options are a parameter, as
-- boost::program_options has parsed them, and so are the environment and the number of cores.
pub mod Sound
use distplusplus.Base.{
  ℕ, ◌==◌, ◌++◌, Bool, true, false, Option, none, some, Result, ok, err, ◌>>=◌, if◌then◌else◌,
}
use distplusplus.Base.Text.{Text, codes, text_eq}
use distplusplus.Base.Words.{to_text}
use distplusplus.Base.Numerals.{strtoull, strtoll}
use distplusplus.Common.Compression.{CompressionType}
use distplusplus.Common.Logging.{Severity, init_boost_logging}

-- How the process ends without a configuration.
pub data Exit : Type 0 where
  exits : ℕ → Exit
  throws : Text → Exit

-- `compression_level` is a 64-bit pattern.
pub record Config : Type 0 where
  pub compression_type : CompressionType
  pub compression_level : ℕ
  pub max_jobs : ℕ
  pub listen_address : Text
  pub reservation_timeout : ℕ

-- The options that were given; the defaults are filled in below.
pub record Options : Type 0 where
  pub compress : Option Text
  pub compression_level : Option ℕ
  pub help : Bool
  pub jobs : Option ℕ
  pub listen_address : Option Text
  pub log_level : Option Text
  pub reservation_timeout : Option ℕ

unfoldable pub value_or {ℓ} : {A : Type ℓ} → A → Option A → A
value_or a none = a
value_or a (some b) = b

abbrev pub conversion_error : Text → Text → ℕ → Text
conversion_error name env errno =
    codes "error converting "
    ++ (name
        ++ (codes " env "
            ++ (env ++ (codes " to unsigned long long - errno is " ++ to_text errno))))

-- `getFromEnv`, at its three types.
unfoldable pub text_from_env : Text → Option Text → Text
text_from_env ret none = ret
text_from_env ret (some env) = env

unfoldable pub converted : Text → Text → ℕ × ℕ → Result Exit ℕ
converted name env (value, errno) =
    if errno == 0 then ok value else err (Exit.throws (conversion_error name env errno))

unfoldable pub unsigned_from_env : Text → ℕ → Option Text → Result Exit ℕ
unfolding converted
unsigned_from_env name ret none = ok ret
unsigned_from_env name ret (some env) = converted name env (strtoull env)

unfoldable pub signed_from_env : Text → ℕ → Option Text → Result Exit ℕ
unfolding converted
signed_from_env name ret none = ok ret
signed_from_env name ret (some env) = converted name env (strtoll env)

-- `default_compression` is DISTPLUSPLUS_DEFAULT_COMPRESSION_STR.
module _ (cores : ℕ) (default_compression : Text) (env : Text → Option Text)
    (options : Options) where
  unfoldable pub log_level : Result Exit Severity
  log_level = elim (init_boost_logging (env (codes "DISTPLUSPLUS_LOG_LEVEL")) options.log_level) [
    | ok severity ↦ ok severity
    | err what ↦ err (Exit.throws what)
  ]

  unfoldable pub compression : Text → Result Exit CompressionType
  compression name =
      if text_eq name (codes "NONE")
      then ok CompressionType.none
      else if text_eq name (codes "zstd")
      then ok CompressionType.zstd
      else err (Exit.exits 1)

  unfoldable pub positive : ℕ → Result Exit ℕ
  positive jobs = if jobs == 0 then err (Exit.exits 1) else ok jobs

  -- From the log level on.
  unfoldable pub read_config : Result Exit Config
  unfolding log_level compression positive value_or text_from_env unsigned_from_env signed_from_env
  read_config = do
    severity ← log_level
    type ← compression (
        text_from_env (value_or default_compression options.compress)
          (env (codes "DISTPLUSPLUS_COMPRESS")))
    level ←
        signed_from_env (codes "DISTPLUSPLUS_COMPRESSION_LEVEL")
          (value_or 1 options.compression_level) (env (codes "DISTPLUSPLUS_COMPRESSION_LEVEL"))
    jobs ←
        unsigned_from_env (codes "DISTPLUSPLUS_JOBS") (value_or cores options.jobs)
          (env (codes "DISTPLUSPLUS_JOBS"))
    max_jobs ← positive jobs
    timeout ←
        unsigned_from_env (codes "DISTPLUSPLUS_RESERVATION_TIMEOUT")
          (value_or 1 options.reservation_timeout) (env (codes "DISTPLUSPLUS_RESERVATION_TIMEOUT"))
    ok (record {
      compression_type = type;
      compression_level = level;
      max_jobs = max_jobs;
      listen_address =
          text_from_env (value_or (codes "127.0.0.1:3633") options.listen_address)
            (env (codes "DISTPLUSPLUS_LISTEN_ADDRESS"));
      reservation_timeout = timeout;
    })

  unfoldable pub get_config : Result Exit Config
  unfolding read_config
  get_config =
      if cores == 0
      then err (Exit.exits 1)
      else if options.help
      then err (Exit.exits 0)
      else read_config
