-- ===== src/Client/Registry/Exactly.antt =====
-- Which servers `init` finds.
use distplusplus.Base.{
  ℕ, ◌≡◌, refl, ap, sym, ◌∙◌, Bool, true, false, ◌||◌, ◌&&◌, not, List, [], ◌∷◌, ◌++◌, ok,
  >>=-eq-ok, arith, Bool-cases, inl, inr, ◌⊎◌, ltb,
}
use distplusplus.Base.Text.{Text, text_eq, text_eq→≡, is_one_of}
use distplusplus.Common.Status.{Status, StatusCode}
use distplusplus.Common.Compression.{CompressionType}
use distplusplus.Server.Query.{QueryAnswer}
use distplusplus.Client.Database.{Table, update_server, remove_server}
use distplusplus.Client.Registry.{
  Known, Found, names, scan, add_configured, renew, insert, insert_all, all_different,
  compression_changed, conclude, init,
}
use distplusplus.Client.Registry.Unique.{named_servers}
use distplusplus.Client.Registry.Scanned.{knows, knows-append, is_current, scan-Knows}

abbrev pub is_ok : StatusCode → Bool
is_ok c = elim c [ StatusCode.ok ↦ true | _ ↦ false ]

insert-knows :
    (n : Text) (s : Known) (ks : List Known)
    → knows n (insert s ks) ≡ (text_eq n s.server || knows n ks)
unfolding insert is_one_of
insert-knows n s [] = ground arith
insert-knows n s (k ∷ ks) = elim (Bool-cases (ltb s.current_load k.current_load)) [
  | inl e ↦ ground (arith, e)
  | inr e ↦ ground (arith, e, insert-knows n s ks)
]

insert_all-knows :
    (n : Text) (rest servers : List Known)
    → knows n (insert_all rest servers) ≡ (knows n rest || knows n servers)
unfolding insert_all is_one_of
insert_all-knows n [] servers = refl
insert_all-knows n (s ∷ rest) servers =
    ground (arith, insert_all-knows n rest (insert s servers), insert-knows n s servers)

-- A server that is known already need not be added.
already :
    (n server : Text) (servers : List Text) (f : Found)
    → (knows n f.available || knows n (add_configured servers f).renewed)
      ≡ (knows n f.available || (knows n f.renewed || is_one_of n servers))
    → (knows server f.renewed || knows server f.available) ≡ true
    → (knows n f.available || knows n (add_configured servers f).renewed)
      ≡ (knows n f.available || (knows n f.renewed || is_one_of n (server ∷ servers)))
unfolding is_one_of
already n server servers f rest e = elim (Bool-cases (text_eq n server)) [
  | inr other ↦ ground (arith, rest, other)
  | inl same ↦
      let known : (knows n f.renewed || knows n f.available) ≡ true =
        rw (text_eq→≡ n server same) e in
      ground (arith, rest, known, same)
]

either :
    {A : Type 0} (P : A → Type 0) (c : StatusCode) (x y : A)
    → (is_ok c ≡ true → P x)
    → (is_ok c ≡ false → P y)
    → P (elim c [ StatusCode.ok ↦ x | _ ↦ y ])
either P StatusCode.ok x y h k = h refl
either P _ x y h k = k refl

-- A configured server is put with those to ask, unless the table has it.
add_configured-knows :
    (n : Text) (servers : List Text) (f : Found)
    → ((add_configured servers f).available ≡ f.available)
      × ((knows n f.available || knows n (add_configured servers f).renewed)
          ≡ (knows n f.available || (knows n f.renewed || is_one_of n servers)))
unfolding add_configured is_one_of
add_configured-knows n [] f = (refl, ground arith)
add_configured-knows n (server ∷ servers) f =
    elim (Bool-cases (knows server f.renewed || knows server f.available)) [
      | inl e ↦
          let (same, rest) = add_configured-knows n servers f in
          rw (e, add_configured) (same, already n server servers f rest e)
      | inr e ↦
          let k : Known = record { current_load = 0; server = server } in
          let (same, rest) =
            add_configured-knows n servers (record f { renewed = f.renewed ++ (k ∷ []) }) in
          rw (e, add_configured) (same, ground (arith, rest, knows-append n f.renewed k))
    ]

module _ (reply : Text → Status × QueryAnswer) (compiler : Text) (mtime : ℕ)
    (behind : Text → List ℕ) where
  renew-knows :
      (n : Text) (rest available : List Known) (t : Table)
      → knows n (renew reply compiler mtime behind rest available t).0
        ≡ (knows n available || (knows n rest && is_ok (reply n).0.code))
  unfolding renew is_one_of
  renew-knows n [] available t = ground arith
  renew-knows n (s ∷ rest) available t =
      let code = (reply s.server).0.code in
      let asked : is_ok code ≡ is_ok (reply n).0.code ⊎ (text_eq n s.server ≡ false) =
        elim (Bool-cases (text_eq n s.server)) [
          | inl same ↦ inl (rw (text_eq→≡ n s.server same) refl)
          | inr other ↦ inr other
        ] in
      either
        (λ (q : List Known × Table).
          knows n q.0 ≡ (knows n available || (knows n (s ∷ rest) && is_ok (reply n).0.code)))
        code _ _
        (λ accepted.
          let new : Known = record {
            current_load = (reply s.server).1.current_load;
            server = s.server;
          } in
          let later =
            renew-knows n rest (available ++ (new ∷ []))
              (update_server compiler mtime s.server (reply s.server).1 (behind s.server) t) in
          ground (arith, later, knows-append n available new, accepted, asked))
        (λ refused.
          let later = renew-knows n rest available (remove_server s.server t) in
          ground (arith, later, refused, asked))

module _ (ndebug : Bool) (reply : Text → Status × QueryAnswer) (configured : List Text)
    (compiler : Text) (previous : Text) (type : CompressionType) (now mtime : ℕ)
    (behind : Text → List ℕ) where
  conclude-knows :
      (f : Found) (table : Table) (servers : List Known) (table' : Table)
      → conclude ndebug reply configured compiler previous type now mtime behind f table
        ≡ ok (servers, table')
      → (n : Text)
      → knows n servers ≡ (
          knows n f.available
          || ((knows n f.renewed || is_one_of n configured) && is_ok (reply n).0.code))
  unfolding conclude is_one_of
  conclude-knows f table servers table' h n =
      let g = add_configured configured f in
      let renewed = renew reply compiler mtime behind g.renewed g.available table in
      let same : insert_all renewed.0 [] ≡ servers =
        elim (Bool-cases (ndebug || all_different (names renewed.0))) [
          | inl e ↦ cc (rw (e, conclude) at h)
          | inr e ↦ cc (rw (e, conclude) at h)
        ] in
      let (kept, added) = add_configured-knows n configured f in
      let asked : knows n renewed.0
          ≡ (knows n f.available || (knows n g.renewed && is_ok (reply n).0.code)) =
        rw (← ap (knows n) kept)
          (renew-knows reply compiler mtime behind n g.renewed g.available table) in
      ap (knows n) (sym same) ∙ insert_all-knows n renewed.0 [] ∙ ground (arith, asked, added)

  -- If `init` returns servers, they are exactly these: those that the table names with an age of at
  -- most ten seconds, if the compression type has not changed, and of the others that it names and of
  -- the configured ones those that reply OK to the query.
  pub init-knows :
      (table : Table) (servers : List Known) (table' : Table)
      → init ndebug reply configured compiler previous type now mtime behind table
        ≡ ok (servers, table')
      → (n : Text)
      → let named = is_one_of n (named_servers table) in
        let current = is_current (compression_changed previous type) now table n in
        knows n servers ≡ (
          (named && current)
          || (((named && not current) || is_one_of n configured) && is_ok (reply n).0.code))
  unfolding init is_one_of
  init-knows table servers table' h n =
      let (f, scanned, h') =
        >>=-eq-ok
          (scan (compression_changed previous type) now table table
            (record { renewed = []; available = [] }))
          _ h in
      let read =
        scan-Knows (compression_changed previous type) now table n table
          (record { renewed = []; available = [] }) f scanned in
      conclude-knows f table servers table' h' n ∙ rw (read.0, read.1) refl
