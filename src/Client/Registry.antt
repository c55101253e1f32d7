-- ===== src/Client/Registry.antt =====
-- src/client/client.cpp: `QueryHelper::init`, which finds the servers that a client may ask. The
-- table "servers" that it reads is a list in the order of its keys, and the one that it returns is a
-- map from keys to values, in no order. The clock is in nanoseconds, and what the servers reply to
-- the query and what LMDB's memory has behind a server's list of compilers are parameters. Registry/Stored adds the table "misc" and the transactions.
pub mod Unique
pub mod Scanned
pub mod Assertion
pub mod Ordered
pub mod Exactly
pub mod Stored
use distplusplus.Base.{
  ℕ, ◌+◌, Bool, true, false, not, ◌||◌, ◌&&◌, List, [], ◌∷◌, ◌++◌, Option, none, some, Result, ok,
  err, ◌>>=◌, ltb, map, if◌then◌else◌,
}
use distplusplus.Base.Text.{Text, codes, text_eq, is_one_of}
use distplusplus.Base.Words.{to_text}
use distplusplus.Common.Compression.{CompressionType}
use distplusplus.Common.Status.{Status, StatusCode}
use distplusplus.Server.Jobs.{seconds}
use distplusplus.Server.Query.{QueryAnswer}
use distplusplus.Client.Database.{Value, Table, get, update_server, remove_server}

-- `struct Server`.
pub record Known : Type 0 where
  pub current_load : ℕ
  pub server : Text

-- A value that is missing or has the wrong size, and the assertion behind the loop.
pub data Problem : Type 0 where
  bad_value not_unique : Problem

-- `key.ends_with`.
unfoldable pub ends_with : Text → Text → Bool
ends_with [] t = text_eq [] t
ends_with (c ∷ s) t = text_eq (c ∷ s) t || ends_with s t

-- The text of a key that ends in "_name". This program writes no value of another kind there.
abbrev pub text_of : Value → Result Problem Text
text_of (Value.text s) = ok s
text_of (Value.number n) = err Problem.bad_value
text_of (Value.flag b) = err Problem.bad_value

-- `lmdb::from_sv`.
abbrev pub number_of : Option Value → Result Problem ℕ
number_of none = err Problem.bad_value
number_of (some (Value.text s)) = err Problem.bad_value
number_of (some (Value.number n)) = ok n
number_of (some (Value.flag b)) = err Problem.bad_value

-- `renewed` is `serverVector`: the existing servers if the compression type has changed, the expired
-- ones if it has not.
pub record Found : Type 0 where
  pub renewed : List Known
  pub available : List Known

module _ (compression_changed : Bool) (now : ℕ) (table : Table) where
  unfoldable pub classify : Known → Found → Result Problem Found
  classify s f =
      if compression_changed
      then ok (record f { renewed = f.renewed ++ (s ∷ []) })
      else (number_of (get (s.server ++ codes "_age") table) >>= λ age.
          if ltb (seconds age + seconds 10) now
          then ok (record f { renewed = f.renewed ++ (s ∷ []) })
          else ok (record f { available = f.available ++ (s ∷ []) }))

  -- The loop of the cursor.
  unfoldable pub scan : Table → Found → Result Problem Found
  unfolding classify ends_with
  scan [] f = ok f
  scan ((key, value) ∷ rest) f = elim (ends_with key (codes "_name")) [
    | true ↦ text_of value >>= λ name.
        number_of (get (name ++ codes "_currentLoad") table) >>= λ load.
        classify (record { current_load = load; server = name }) f >>= λ f'. scan rest f'
    | false ↦ scan rest f
  ]

abbrev pub names : List Known → List Text
names = map (λ s. s.server)

-- The loop over the configured servers.
unfoldable pub add_configured : List Text → Found → Found
add_configured [] f = f
add_configured (server ∷ servers) f =
    elim (is_one_of server (names f.renewed) || is_one_of server (names f.available)) [
      | true ↦ add_configured servers f
      | false ↦
          add_configured servers (record f {
            renewed = f.renewed ++ (record { current_load = 0; server = server } ∷ []);
          })
    ]

module _ (reply : Text → Status × QueryAnswer) (compiler : Text) (mtime : ℕ)
    (behind : Text → List ℕ) where
  -- The loop over `serverVector`.
  unfoldable pub renew : List Known → List Known → Table → List Known × Table
  renew [] available t = (available, t)
  renew (s ∷ rest) available t = elim (reply s.server).0.code [
    | StatusCode.ok ↦
        renew rest
          (available
            ++ (record { current_load = (reply s.server).1.current_load; server = s.server } ∷ []))
          (update_server compiler mtime s.server (reply s.server).1 (behind s.server) t)
    | _ ↦ renew rest available (remove_server s.server t)
  ]

-- `client->servers.insert(server)`, behind every server of the same load.
unfoldable pub insert : Known → List Known → List Known
insert s [] = s ∷ []
insert s (k ∷ ks) = if ltb s.current_load k.current_load then s ∷ k ∷ ks else k ∷ insert s ks

unfoldable pub insert_all : List Known → List Known → List Known
unfolding insert
insert_all [] servers = servers
insert_all (s ∷ rest) servers = insert_all rest (insert s servers)

-- `set.size() < availableServers.size()` does not hold.
unfoldable pub all_different : List Text → Bool
all_different [] = true
all_different (s ∷ rest) = not (is_one_of s rest) && all_different rest

-- The number of the enum's value, and whether the one in the table "misc" is another.
unfoldable pub compression_number : CompressionType → ℕ
compression_number CompressionType.none = 0
compression_number CompressionType.zstd = 1
compression_number (CompressionType.other n) = n

unfoldable pub compression_changed : Text → CompressionType → Bool
unfolding compression_number
compression_changed previous type = not (text_eq previous (to_text (compression_number type)))

-- `ndebug` is whether the macro NDEBUG is defined; without it the names are checked. `previous` is
-- empty where nothing is stored.
module _ (ndebug : Bool) (reply : Text → Status × QueryAnswer) (configured : List Text)
    (compiler : Text) (previous : Text) (type : CompressionType) (now mtime : ℕ)
    (behind : Text → List ℕ) where
  unfoldable pub conclude : Found → Table → Result Problem (List Known × Table)
  unfolding add_configured renew insert_all all_different
  conclude f table =
      let g = add_configured configured f in
      let (available, table') = renew reply compiler mtime behind g.renewed g.available table in
      if ndebug || all_different (names available)
      then ok (insert_all available [], table')
      else err Problem.not_unique

  unfoldable pub init : Table → Result Problem (List Known × Table)
  unfolding scan conclude compression_changed
  init table =
      scan (compression_changed previous type) now table table
        (record { renewed = []; available = [] })
      >>= λ f. conclude f table
