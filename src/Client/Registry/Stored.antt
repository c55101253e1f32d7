-- ===== src/Client/Registry/Stored.antt =====
-- src/client/client.cpp: the transactions of `QueryHelper::init`. LMDB's environment holds the tables
-- "misc" and "servers"; a transaction that is not committed leaves them as they were.
use distplusplus.Base.{
  ℕ, ◌≡◌, refl, ap, ◌∙◌, Bool, true, false, ◌||◌, List, [], Result, ok, err, Bool-cases,
  Result-cases, inl, inr, if◌then◌else◌,
}
use distplusplus.Base.Text.{Text, text_eq_refl}
use distplusplus.Base.Words.{to_text}
use distplusplus.Common.Status.{Status}
use distplusplus.Common.Compression.{CompressionType}
use distplusplus.Server.Query.{QueryAnswer}
use distplusplus.Client.Database.{Table}
use distplusplus.Client.Registry.{
  Known, Found, Problem, names, scan, add_configured, renew, insert_all, all_different,
  compression_number, compression_changed, conclude, init,
}

-- `misc` is the value of "compressionType", empty where there is none.
pub record Store : Type 0 where
  pub misc : Text
  pub servers : Table

module _ (ndebug : Bool) (reply : Text → Status × QueryAnswer) (configured : List Text)
    (compiler : Text) (type : CompressionType) (now mtime : ℕ) (behind : Text → List ℕ) where
  -- The end of `init`. If the compression type has changed, all is written in `parent_wtxn`, which
  -- is committed last; if not, the servers are committed before the names are checked.
  unfoldable pub commit : Bool → Store → List Known × Table → Result Problem (List Known) × Store
  unfolding compression_number all_different insert_all
  commit changed s (available, table) =
      let written =
        if changed
        then record { misc = to_text (compression_number type); servers = table }
        else record s { servers = table } in
      if ndebug || all_different (names available)
      then (ok (insert_all available []), written)
      else (err Problem.not_unique, if changed then s else written)

  unfoldable pub from_scan :
      Bool → Store → Result Problem Found → Result Problem (List Known) × Store
  unfolding commit add_configured renew
  from_scan changed s (err problem) = (err problem, s)
  from_scan changed s (ok f) =
      let g = add_configured configured f in
      commit changed s (renew reply compiler mtime behind g.renewed g.available s.servers)

  -- `init`, with what it leaves in the tables.
  unfoldable pub init_store : Store → Result Problem (List Known) × Store
  unfolding from_scan compression_changed scan
  init_store s =
      let changed = compression_changed s.misc type in
      from_scan changed s
        (scan changed now s.servers s.servers (record { renewed = []; available = [] }))

  -- The value that "misc" has once the type is written.
  remembered :
      (changed : Bool) (s : Store)
      → compression_changed s.misc type ≡ changed
      → compression_changed (if changed then to_text (compression_number type) else s.misc) type
        ≡ false
  unfolding compression_changed
  remembered true s c = rw (text_eq_refl (to_text (compression_number type))) refl
  remembered false s c = c

  commit_ok :
      (changed : Bool) (s : Store) (available : List Known) (table : Table) (found : List Known)
      → (ndebug || all_different (names available)) ≡ true
      → insert_all available [] ≡ found
      → commit changed s (available, table) ≡ (
        ok found,
        record {
          misc = if changed then to_text (compression_number type) else s.misc;
          servers = table;
        },
      )
  unfolding commit
  commit_ok true s available table found e same = rw (e, commit, same) refl
  commit_ok false s available table found e same = rw (e, commit, same) refl

  commit_atomic :
      (s : Store) (r : List Known × Table) (w : Problem) (s' : Store)
      → commit true s r ≡ (err w, s')
      → s' ≡ s
  unfolding commit
  commit_atomic s (available, table) w s' h =
      elim (Bool-cases (ndebug || all_different (names available))) [
        | inl e ↦ cc (rw (e, commit) at h)
        | inr e ↦ cc (rw (e, commit) at h)
      ]

  from_scan_atomic :
      (s : Store) (r : Result Problem Found) (w : Problem) (s' : Store)
      → from_scan true s r ≡ (err w, s')
      → s' ≡ s
  unfolding from_scan
  from_scan_atomic s (err v) w s' h = cc
  from_scan_atomic s (ok f) w s' h = commit_atomic s _ w s' h

  commit-conclude :
      (changed : Bool) (s : Store) (f : Found) (found : List Known) (table : Table)
      → compression_changed s.misc type ≡ changed
      → conclude ndebug reply configured compiler s.misc type now mtime behind f s.servers
        ≡ ok (found, table)
      → (s' : Store) × (from_scan changed s (ok f) ≡ (ok found, s'))
        × (s'.servers ≡ table)
        × (compression_changed s'.misc type ≡ false)
  unfolding from_scan conclude commit
  commit-conclude changed s f found table c h =
      let g = add_configured configured f in
      let r = renew reply compiler mtime behind g.renewed g.available s.servers in
      elim (Bool-cases (ndebug || all_different (names r.0))) [
        | inr e ↦ cc (rw (e, conclude) at h)
        | inl e ↦
            let same : insert_all r.0 [] ≡ found = cc (rw (e, conclude) at h) in
            let same_table : r.1 ≡ table = cc (rw (e, conclude) at h) in
            let s' : Store = record {
              misc = if changed then to_text (compression_number type) else s.misc;
              servers = r.1;
            } in
            (s', commit_ok changed s r.0 r.1 found e same, same_table, remembered changed s c)
      ]

  -- If `init` returns servers for the tables of a store, `init_store` returns them, leaves the table
  -- that `init` gives, and leaves a "misc" by which the compression type has not changed.
  pub init_store-init :
      (s : Store) (found : List Known) (table : Table)
      → init ndebug reply configured compiler s.misc type now mtime behind s.servers
        ≡ ok (found, table)
      → (s' : Store) × (init_store s ≡ (ok found, s'))
        × (s'.servers ≡ table)
        × (compression_changed s'.misc type ≡ false)
  unfolding init_store init
  init_store-init s found table h =
      let changed = compression_changed s.misc type in
      let nothing : Found = record { renewed = []; available = [] } in
      elim (Result-cases (scan changed now s.servers s.servers nothing)) [
        | inl (w, e) ↦ cc (rw e at h)
        | inr (f, e) ↦
            let (s', t, same, kept) = commit-conclude changed s f found table refl (rw e at h) in
            (s', ap (from_scan changed s) e ∙ t, same, kept)
      ]

  -- If the compression type has changed and `init_store` fails, both tables are as they were.
  pub init_store_atomic :
      (s : Store) (w : Problem) (s' : Store)
      → compression_changed s.misc type ≡ true
      → init_store s ≡ (err w, s')
      → s' ≡ s
  unfolding init_store
  init_store_atomic s w s' changed h = from_scan_atomic s _ w s' (rw changed at h)
