-- ===== src/Server/Config/Sound.antt =====
-- What a configuration promises to the rest of the server.
use distplusplus.Base.{
  ℕ, ◌<◌, ◌^◌, ◌≡◌, ◌∙◌, ◌⊎◌, Bool, Option, some, Result, ok, ◌>>=◌, arith, >>=-eq-ok,
}
use distplusplus.Base.Text.{Text, codes}
use distplusplus.Base.Words.{to_text}
use distplusplus.Base.Numerals.Digits.{strtoull-to_text}
use distplusplus.Common.Compression.{CompressionType, CompressorFactory}
use distplusplus.Server.Jobs.{fresh_server, new_server}
use distplusplus.Server.Config.{
  Exit, Config, Options, value_or, text_from_env, converted, unsigned_from_env, compression,
  positive, read_config, get_config,
}

module _ (cores : ℕ) (default_compression : Text) (env : Text → Option Text)
    (options : Options) where
  -- `getFromEnv` for the number of jobs.
  abbrev jobs_option : Result Exit ℕ
  jobs_option =
      unsigned_from_env (codes "DISTPLUSPLUS_JOBS") (value_or cores options.jobs)
        (env (codes "DISTPLUSPLUS_JOBS"))

  abbrev compression_name : Text
  compression_name =
      text_from_env (value_or default_compression options.compress)
        (env (codes "DISTPLUSPLUS_COMPRESS"))

  -- The steps that lead to a configuration.
  steps :
      (c : Config)
      → read_config cores default_compression env options ≡ ok c
      → (compression cores default_compression env options compression_name ≡ ok c.compression_type)
        × ((jobs_option >>= positive cores default_compression env options) ≡ ok c.max_jobs)
  unfolding read_config
  steps c h = ground arith

  read_of_get :
      (c : Config)
      → get_config cores default_compression env options ≡ ok c
      → read_config cores default_compression env options ≡ ok c
  unfolding get_config
  read_of_get c h = ground arith

  known_compression :
      (name : Text) (type : CompressionType)
      → compression cores default_compression env options name ≡ ok type
      → (type ≡ CompressionType.none) ⊎ (type ≡ CompressionType.zstd)
  unfolding compression
  known_compression name type h = ground arith

  positive_jobs :
      (jobs max_jobs : ℕ)
      → positive cores default_compression env options jobs ≡ ok max_jobs
      → (0 < max_jobs) × (max_jobs ≡ jobs)
  unfolding positive
  positive_jobs jobs max_jobs h = ground arith

  -- If `get_config` returns a configuration, its compression type is one that the enum names, it has
  -- at least one job, and the server's constructor accepts it.
  pub get_config_sound :
      (c : Config) (ndebug : Bool) (factory : CompressorFactory)
      → get_config cores default_compression env options ≡ ok c
      → ((c.compression_type ≡ CompressionType.none) ⊎ (c.compression_type ≡ CompressionType.zstd))
        × (0 < c.max_jobs)
        × (new_server ndebug c.max_jobs c.reservation_timeout factory
            ≡ ok (fresh_server c.max_jobs c.reservation_timeout factory))
  unfolding new_server
  get_config_sound c ndebug factory h =
      let s = steps c (read_of_get c h) in
      let (jobs, read, checked) = >>=-eq-ok jobs_option _ s.1 in
      let p = (positive_jobs jobs c.max_jobs checked).0 in
      (known_compression compression_name c.compression_type s.0, p, ground (arith, p))

  -- If the environment's DISTPLUSPLUS_JOBS is the decimal text of a number below `2 ^ 64`, that is
  -- the number of jobs of every configuration that `get_config` returns, whatever the options are.
  pub get_config_jobs :
      (c : Config) (n : ℕ)
      → env (codes "DISTPLUSPLUS_JOBS") ≡ some (to_text n)
      → n < 2 ^ 64
      → get_config cores default_compression env options ≡ ok c
      → c.max_jobs ≡ n
  unfolding unsigned_from_env converted
  get_config_jobs c n e fits h =
      let (jobs, read, checked) = >>=-eq-ok jobs_option _ (steps c (read_of_get c h)).1 in
      let same = rw (e, unsigned_from_env, strtoull-to_text n fits, converted) at read in
      (positive_jobs jobs c.max_jobs checked).1 ∙ cc
