-- ===== src/Client/Config.antt =====
-- src/client/config.hpp and config.cpp: the client's configuration. The environment, the test for a
-- regular file and the TOML parser are parameters; making the state directory is not modelled.
pub mod Sound
use distplusplus.Base.{
  ℕ, ◌%◌, ◌^◌, Bool, true, false, not, List, [], ◌∷◌, ◌++◌, Option, none, some, Result, ok, err,
  ◌>>=◌, if◌then◌else◌,
}
use distplusplus.Base.Text.{Text, codes, text_eq, is_one_of}
use distplusplus.Base.Numerals.{atoll}
use distplusplus.Common.Compression.{CompressionType}

-- What ends the constructor: an exception, or a null pointer that the code dereferences.
pub data ConfigError : Type 0 where
  runtime_error : Text → ConfigError
  null_pointer : ConfigError

-- The file's entries, as far as the code reads them. A server that is no string is none.
pub record Toml : Type 0 where
  pub servers : Option (List (Option Text))
  pub timeout : Option ℕ
  pub compress : Option Text
  pub compression_level : Option ℕ
  pub fallback : Option Bool

-- `compression_level` is a 64-bit pattern.
pub record Config : Type 0 where
  pub state_dir : Text
  pub servers : List Text
  pub reservation_attempt_timeout : ℕ
  pub compression_type : CompressionType
  pub compression_level : ℕ
  pub fallback : Bool

unfoldable pub sounds_like_no : List Text
sounds_like_no = codes "0" ∷ codes "NO" ∷ codes "no" ∷ codes "OFF" ∷ codes "off" ∷ []

unfoldable pub sounds_like_yes : List Text
sounds_like_yes = codes "1" ∷ codes "YES" ∷ codes "yes" ∷ codes "ON" ∷ codes "on" ∷ []

unfoldable pub strings : List (Option Text) → Result ConfigError (List Text)
strings [] = ok []
strings (none ∷ entries) = err ConfigError.null_pointer
strings (some server ∷ entries) = strings entries >>= λ servers. ok (server ∷ servers)

-- `path` is the configuration file's.
unfoldable pub listed_servers : Text → List Text → Result ConfigError (List Text)
listed_servers path [] =
    err (ConfigError.runtime_error (codes "config file " ++ (path ++ codes " provides no hosts")))
listed_servers path (server ∷ servers) = ok (server ∷ servers)

unfoldable pub get_servers : Option Text → Text → Toml → Result ConfigError (List Text)
unfolding strings listed_servers
get_servers (some address) path file = ok (address ∷ [])
get_servers none path file = elim file.servers [
  | none ↦ err ConfigError.null_pointer
  | some entries ↦ strings entries >>= listed_servers path
]

unfoldable pub get_timeout : Option Text → Toml → ℕ
get_timeout (some text) file = atoll text % 2 ^ 32
get_timeout none file = elim file.timeout [ some n ↦ n | none ↦ 10 ]

-- `default_compression` is DISTPLUSPLUS_DEFAULT_COMPRESSION_STR.
unfoldable pub compression_string : Text → Option Text → Toml → Text
compression_string default_compression (some text) file = text
compression_string default_compression none file = elim file.compress [
  | some text ↦ text
  | none ↦ default_compression
]

unfoldable pub compression_named : Text → Result ConfigError CompressionType
compression_named name =
    if text_eq name (codes "NONE")
    then ok CompressionType.none
    else if text_eq name (codes "zstd")
    then ok CompressionType.zstd
    else err (ConfigError.runtime_error (codes "unrecognized compression type " ++ name))

unfoldable pub get_compression_level : Option Text → Toml → ℕ
get_compression_level (some text) file = atoll text
get_compression_level none file = elim file.compression_level [ some n ↦ n | none ↦ 1 ]

abbrev pub fallback_of_file : Toml → Bool
fallback_of_file file = elim file.fallback [ some b ↦ b | none ↦ true ]

unfoldable pub get_fallback : Option Text → Toml → Bool
get_fallback (some text) file =
    if is_one_of text sounds_like_no
    then false
    else if is_one_of text sounds_like_yes
    then true
    else fallback_of_file file
get_fallback none file = fallback_of_file file

module _ (env : Text → Option Text) (is_regular_file : Text → Bool)
    (parse_file : Text → Result ConfigError Toml) (default_compression : Text) where
  unfoldable pub get_state_dir : Result ConfigError Text
  get_state_dir = elim (env (codes "DISTPLUSPLUS_STATE_DIR")) [
    | some dir ↦ ok dir
    | none ↦ elim (env (codes "HOME")) [
      | some home ↦ ok (home ++ codes "/.local/state/distplusplus")
      | none ↦ err (ConfigError.runtime_error (codes "could not figure out state directory"))
    ]
  ]

  unfoldable pub config_path : Text
  config_path = elim (env (codes "DISTPLUSPLUS_CONFIG_FILE")) [
    | some path ↦ path
    | none ↦ codes "/etc/distplusplus/distplusplus.toml"
  ]

  unfoldable pub get_config_file : Result ConfigError Toml
  unfolding config_path
  get_config_file =
      if not (is_regular_file config_path)
      then err (
          ConfigError.runtime_error (
            codes "config file "
            ++ (config_path ++ codes " does not exist or is not a regular file")))
      else parse_file config_path

  -- The constructor. Its last check, for an empty list of servers, cannot fail behind `getServers`.
  unfoldable pub new_config : Result ConfigError Config
  unfolding get_state_dir get_config_file get_servers get_timeout compression_string
      compression_named get_compression_level get_fallback
  new_config = do
    state_dir ← get_state_dir
    file ← get_config_file
    servers ← get_servers (env (codes "DISTPLUSPLUS_LISTEN_ADDRESS")) config_path file
    type ←
        compression_named
          (compression_string default_compression (env (codes "DISTPLUSPLUS_COMPRESS")) file)
    ok (record {
      state_dir = state_dir;
      servers = servers;
      reservation_attempt_timeout = get_timeout (env (codes "DISTPLUSPLUS_TIMEOUT")) file;
      compression_type = type;
      compression_level = get_compression_level (env (codes "DISTPLUSPLUS_COMPRESSION_LEVEL")) file;
      fallback = get_fallback (env (codes "DISTPLUSPLUS_FALLBACK")) file;
    })
