-- ===== src/Client/Database.antt =====
-- src/client/client.cpp: `updateServer` and `removeServer`, on the table "servers" of the LMDB
-- environment, which is a map from keys to values. A value that the source writes as the bytes of an
-- integer or of a bool is kept as that.
pub mod Tables
pub mod Entries
use distplusplus.Base.{
  ℕ, ◌==◌, Bool, true, false, not, ◌&&◌, ◌||◌, List, [], ◌∷◌, ◌++◌, Option, none, some, ltb,
  if◌then◌else◌,
}
use distplusplus.Base.Text.{Text, codes, text_eq, get_lines}
use distplusplus.Common.Arguments.{c_text}
use distplusplus.Server.Query.{QueryAnswer}

pub data Value : Type 0 where
  text : Text → Value
  number : ℕ → Value
  flag : Bool → Value

abbrev pub Table : Type 0
Table = List (Text × Value)

-- `dbi.get`.
unfoldable pub get : Text → Table → Option Value
get key [] = none
get key ((k, v) ∷ t) = if text_eq k key then some v else get key t

-- `dbi.put`, which replaces the value of a key that is there.
unfoldable pub put : Text → Value → Table → Table
put key value [] = (key, value) ∷ []
put key value ((k, v) ∷ t) =
    let rest = put key value t in if text_eq k key then (k, value) ∷ t else (k, v) ∷ rest

-- `dbi.del`.
unfoldable pub del : Text → Table → Table
del key [] = []
del key ((k, v) ∷ t) = let rest = del key t in if text_eq k key then rest else (k, v) ∷ rest

-- The loop over the compilers that an entry lists.
unfoldable pub new_compilers : Text → Bool → List Text → Text
new_compilers name supported [] = []
new_compilers name supported (compiler ∷ compilers) =
    let rest = new_compilers name supported compilers in
    if text_eq compiler name
    then (if supported then compiler ++ (b'/' ∷ rest) else rest)
    else compiler ++ (b'/' ∷ rest)

-- The new value of `$host_supportedCompilers`, from the old one, which is read as a C string: up to the
-- first zero byte in it or `behind` it in the memory of LMDB. A value that is no text is not written
-- by this program.
unfoldable pub supported_compilers : Text → Bool → List ℕ → Option Value → Text
unfolding new_compilers
supported_compilers name supported behind (some (Value.text old)) =
    new_compilers name supported (get_lines b'/' (c_text (old ++ behind)))
supported_compilers name supported behind (some (Value.number n)) = []
supported_compilers name supported behind (some (Value.flag b)) = []
supported_compilers name supported behind none = if supported then name ++ codes "/" else []

-- `mtime` is the clock's time in whole seconds, `name` the client's `compilerName`; `behind` is
-- what stands behind the old value.
unfoldable pub update_server : Text → ℕ → Text → QueryAnswer → List ℕ → Table → Table
unfolding put get supported_compilers
update_server name mtime server answer behind t₀ =
    let t₁ = put (server ++ codes "_name") (Value.text server) t₀ in
    let t₂ = put (server ++ codes "_age") (Value.number mtime) t₁ in
    let t₃ =
      put (server ++ codes "_compressionTypeSupported")
        (Value.flag answer.compression_type_supported) t₂ in
    let load = if ltb 100 answer.current_load then 100 else answer.current_load in
    let t₄ = put (server ++ codes "_currentLoad") (Value.number load) t₃ in
    let t₅ = put (server ++ codes "_maxJobs") (Value.number answer.max_jobs) t₄ in
    put (server ++ codes "_supportedCompilers")
      (Value.text (
        supported_compilers name answer.compiler_supported behind
          (get (server ++ codes "_supportedCompilers") t₅)))
      t₅

unfoldable pub remove_server : Text → Table → Table
unfolding del
remove_server server t = del (server ++ codes "_maxJobs") (
    del (server ++ codes "_currentLoad") (
      del (server ++ codes "_supportedCompilers") (
        del (server ++ codes "_compressionTypeSupported")
          (del (server ++ codes "_age") (del (server ++ codes "_name") t)))))
