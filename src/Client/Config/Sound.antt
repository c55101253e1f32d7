-- ===== src/Client/Config/Sound.antt =====
-- What a client's configuration promises.
use distplusplus.Base.{
  ◌≡◌, ◌≢◌, ◌↔◌, ◌⊎◌, inl, inr, Bool, true, false, List, [], ◌∷◌, Option, none, some, Result, ok,
  >>=-eq-ok, arith, Option-cases, Result-cases,
}
use distplusplus.Base.Text.{Text, codes, is_one_of}
use distplusplus.Common.Compression.{CompressionType}
use distplusplus.Client.Config.{
  ConfigError, Toml, Config, sounds_like_no, sounds_like_yes, strings, listed_servers, get_servers,
  compression_string, compression_named, get_fallback, config_path, get_config_file, new_config,
}

-- The variable is set to one of the words.
unfoldable pub says : List Text → Option Text → Bool
says words none = false
says words (some text) = is_one_of text words

-- The local fallback is off exactly if the environment's value sounds like no, or it does not sound
-- like yes and the file turns the fallback off.
pub get_fallback_iff :
    (value : Option Text) (file : Toml)
    → (get_fallback value file ≡ false) ↔ (
        (says sounds_like_no value ≡ true)
        ⊎ ((file.fallback ≡ some false) × (says sounds_like_yes value ≡ false)))
unfolding get_fallback says
get_fallback_iff none file = ground arith
get_fallback_iff (some text) file = ground arith

listed_ne :
    (path : Text) (entries servers : List Text)
    → listed_servers path entries ≡ ok servers
    → servers ≢ []
unfolding listed_servers
listed_ne path [] servers h e = cc
listed_ne path (x ∷ xs) servers h e = cc

servers_ne :
    (value : Option Text) (path : Text) (file : Toml) (servers : List Text)
    → get_servers value path file ≡ ok servers
    → servers ≢ []
unfolding get_servers
servers_ne (some address) path file servers h e = cc
servers_ne none path file servers h e = elim (Option-cases file.servers) [
  | inl f ↦ cc (rw (f, get_servers) at h)
  | inr (entries, f) ↦
      let (names, g, k) =
        >>=-eq-ok (strings entries) (listed_servers path) (rw (f, get_servers) at h) in
      listed_ne path names servers k e
]

type_known :
    (name : Text) (type : CompressionType)
    → compression_named name ≡ ok type
    → (type ≡ CompressionType.none) ⊎ (type ≡ CompressionType.zstd)
unfolding compression_named
type_known name type h = ground arith

module _ (env : Text → Option Text) (is_regular_file : Text → Bool)
    (parse_file : Text → Result ConfigError Toml) (default_compression : Text) where
  abbrev path : Text
  path = config_path env is_regular_file parse_file default_compression

  -- What the fields of a configuration come from.
  record Steps (c : Config) : Type 0 where
    file : Toml
    servers : get_servers (env (codes "DISTPLUSPLUS_LISTEN_ADDRESS")) path file ≡ ok c.servers
    type :
        compression_named
          (compression_string default_compression (env (codes "DISTPLUSPLUS_COMPRESS")) file)
        ≡ ok c.compression_type

  steps :
      (c : Config) → new_config env is_regular_file parse_file default_compression ≡ ok c → Steps c
  unfolding new_config
  steps c h =
      elim (Result-cases (get_config_file env is_regular_file parse_file default_compression)) [
        | inl (w, e) ↦ absurd (ground (arith, e))
        | inr (file, e) ↦ record {
          file = file;
          servers = ground (arith, e);
          type = ground (arith, e);
        }
      ]

  -- If the constructor returns a configuration, it has a server, and its compression type is one
  -- that the enum names.
  pub new_config_sound :
      (c : Config)
      → new_config env is_regular_file parse_file default_compression ≡ ok c
      → (c.servers ≢ [])
        × ((c.compression_type ≡ CompressionType.none)
            ⊎ (c.compression_type ≡ CompressionType.zstd))
  new_config_sound c h =
      let s = steps c h in
      (servers_ne _ path s.file c.servers s.servers, type_known _ c.compression_type s.type)
