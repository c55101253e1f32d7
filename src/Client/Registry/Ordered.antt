-- ===== src/Client/Registry/Ordered.antt =====
-- The servers are tried in the order of their load.
use distplusplus.Base.{ℕ, ◌≤◌, ◌≡◌, sym, Bool, List, [], ◌∷◌, ok, >>=-eq-ok, All, arith, subst}
use distplusplus.Base.Text.{Text}
use distplusplus.Common.Status.{Status}
use distplusplus.Common.Compression.{CompressionType}
use distplusplus.Server.Query.{QueryAnswer}
use distplusplus.Client.Database.{Table}
use distplusplus.Client.Registry.{
  Known, Found, add_configured, renew, insert, insert_all, scan, compression_changed, conclude,
  init,
}

-- No server in front of another has a higher load.
abbrev pub IsSorted : List Known → Type 0
IsSorted [] = Unit {0}
IsSorted (s ∷ rest) = All (λ k. s.current_load ≤ k.current_load) rest × IsSorted rest

All-le :
    (a b : ℕ) (ks : List Known)
    → a ≤ b
    → All (λ k. b ≤ k.current_load) ks
    → All (λ k. a ≤ k.current_load) ks
All-le a b [] h n = tt
All-le a b (k ∷ ks) h n = (omega (arith, n.0), All-le a b ks h n.1)

All-insert :
    (a : ℕ) (s : Known) (ks : List Known)
    → a ≤ s.current_load
    → All (λ k. a ≤ k.current_load) ks
    → All (λ k. a ≤ k.current_load) (insert s ks)
unfolding insert
All-insert a s [] h n = (h, tt)
All-insert a s (k ∷ ks) h n = ground (arith, All-insert a s ks h n.1)

insert-IsSorted : (s : Known) (ks : List Known) → IsSorted ks → IsSorted (insert s ks)
unfolding insert
insert-IsSorted s [] o = (tt, tt)
insert-IsSorted s (k ∷ ks) o = ground (
  arith,
  insert-IsSorted s ks o.1,
  All-insert k.current_load s ks,
  All-le s.current_load k.current_load ks,
)

insert_all-IsSorted : (new ks : List Known) → IsSorted ks → IsSorted (insert_all new ks)
unfolding insert_all
insert_all-IsSorted [] ks o = o
insert_all-IsSorted (s ∷ rest) ks o =
    insert_all-IsSorted rest (insert s ks) (insert-IsSorted s ks o)

module _ (ndebug : Bool) (reply : Text → Status × QueryAnswer) (configured : List Text)
    (compiler : Text) (previous : Text) (type : CompressionType) (now mtime : ℕ)
    (behind : Text → List ℕ) where
  concluded :
      (f : Found) (table : Table) (servers : List Known) (table' : Table)
      → conclude ndebug reply configured compiler previous type now mtime behind f table
        ≡ ok (servers, table')
      → let g = add_configured configured f in
        servers ≡ insert_all (renew reply compiler mtime behind g.renewed g.available table).0 []
  unfolding conclude
  concluded f table servers table' h = ground arith

  -- If `init` returns servers, they are in the order of the loads that it has for them.
  pub init-IsSorted :
      (table : Table) (servers : List Known) (table' : Table)
      → init ndebug reply configured compiler previous type now mtime behind table
        ≡ ok (servers, table')
      → IsSorted servers
  unfolding init
  init-IsSorted table servers table' h =
      let (f, e, k) = >>=-eq-ok (scan (compression_changed previous type) now table table _) _ h in
      let g = add_configured configured f in
      subst IsSorted (sym (concluded f table servers table' k)) (
        insert_all-IsSorted (renew reply compiler mtime behind g.renewed g.available table).0 [] tt)
