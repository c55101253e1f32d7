-- ===== src/Client/Registry/Scanned.antt =====
-- What the loop over the table finds.
use distplusplus.Base.{
  ℕ, ◌+◌, ◌≡◌, ap, ◌⊎◌, inl, inr, Bool, true, false, not, ◌&&◌, ◌||◌, List, [], ◌∷◌, ◌++◌, Option,
  none, some, ok, leb, ltb, arith, Bool-cases, >>=-eq-ok,
}
use distplusplus.Base.Text.{Text, codes, text_eq, text_eq→≡, is_one_of}
use distplusplus.Server.Jobs.{seconds}
use distplusplus.Client.Database.{Value, Table, get}
use distplusplus.Client.Registry.{Known, Found, names, classify, scan, ends_with, number_of}
use distplusplus.Client.Registry.Unique.{names-append, is_one_of-append, named_servers}

-- Whether a server of the name is among those that are known.
abbrev pub knows : Text → List Known → Bool
knows n ks = is_one_of n (names ks)

pub knows-append :
    (n : Text) (ks : List Known) (k : Known)
    → knows n (ks ++ (k ∷ [])) ≡ (knows n ks || text_eq n k.server)
knows-append n ks k = rw (names-append ks k) (is_one_of-append n (names ks) k.server)

-- An age that is at most ten seconds old.
unfoldable pub is_young : ℕ → Option Value → Bool
is_young now (some (Value.number age)) = leb now (seconds age + seconds 10)
is_young now _ = false

-- The table's entry of the server can be used as it is: it is young, and the compression type is still
-- the one for which it was made.
unfoldable pub is_current : Bool → ℕ → Table → Text → Bool
unfolding is_young
is_current changed now table n = not changed && is_young now (get (n ++ codes "_age") table)

number_inv : (v : Option Value) (n : ℕ) → number_of v ≡ ok n → v ≡ some (Value.number n)
number_inv none n h = cc
number_inv (some (Value.text s)) n h = cc
number_inv (some (Value.number m)) n h = cc
number_inv (some (Value.flag b)) n h = cc

module _ (changed : Bool) (now : ℕ) (table : Table) where
  abbrev current : Text → Bool
  current = is_current changed now table

  -- The server of an entry is put with the available ones exactly if the entry is current.
  classified_as :
      (s : Known) (f g : Found)
      → classify changed now table s f ≡ ok g
      → ((current s.server ≡ true) × (g ≡ record f { available = f.available ++ (s ∷ []) }))
        ⊎ ((current s.server ≡ false) × (g ≡ record f { renewed = f.renewed ++ (s ∷ []) }))
  unfolding classify is_current is_young
  classified_as s f g h = elim (Bool-cases changed) [
    | inl e ↦ inr (ground (arith, e), cc (rw (e, classify) at h))
    | inr e ↦
        let (age, a, k) =
          >>=-eq-ok (number_of (get (s.server ++ codes "_age") table)) _ (rw (e, classify) at h) in
        let found = number_inv (get (s.server ++ codes "_age") table) age a in
        elim (Bool-cases (ltb (seconds age + seconds 10) now)) [
          | inl old ↦ inr (rw (e, found) (ground (arith, old)), cc (rw old at k))
          | inr young ↦ inl (rw (e, found) (ground (arith, young)), cc (rw young at k))
        ]
  ]

  current_same : (n server : Text) → (text_eq n server ≡ false) ⊎ (current n ≡ current server)
  current_same n server = elim (Bool-cases (text_eq n server)) [
    | inl e ↦ inr (ap current (text_eq→≡ n server e))
    | inr e ↦ inl e
  ]

  -- What the two lists know of a name, once the entries of `ns` are read.
  abbrev Knows : Text → List Text → Found → Found → Type 0
  Knows n ns f g =
      (knows n g.available ≡ (knows n f.available || (is_one_of n ns && current n)))
      × (knows n g.renewed ≡ (knows n f.renewed || (is_one_of n ns && not (current n))))

  classify-Knows :
      (n : Text) (s : Known) (f f' g : Found) (ns : List Text)
      → classify changed now table s f ≡ ok f'
      → Knows n ns f' g
      → Knows n (s.server ∷ ns) f g
  unfolding is_one_of
  classify-Knows n s f f' g ns h k = elim (classified_as s f f' h) [
    | inl (c, e) ↦
        ground (arith, c, rw e at k, knows-append n f.available s, current_same n s.server)
    | inr (c, e) ↦ ground (arith, c, rw e at k, knows-append n f.renewed s, current_same n s.server)
  ]

  pub scan-Knows :
      (n : Text) (rest : Table) (f g : Found)
      → scan changed now table rest f ≡ ok g
      → Knows n (named_servers rest) f g
  unfolding scan named_servers is_one_of
  scan-Knows n [] f g h = let e : f ≡ g = cc in rw (← e) (ground arith)
  scan-Knows n ((key, Value.text name) ∷ rest) f g h =
      elim (Bool-cases (ends_with key (codes "_name"))) [
        | inr e ↦ rw (e, named_servers) (scan-Knows n rest f g (rw (e, scan) at h))
        | inl e ↦
            let (load, k, h₁) =
              >>=-eq-ok (number_of (get (name ++ codes "_currentLoad") table)) _
                (rw (e, scan) at h) in
            let s : Known = record { current_load = load; server = name } in
            let (f', c, h₂) = >>=-eq-ok (classify changed now table s f) _ h₁ in
            rw (e, named_servers)
              (classify-Knows n s f f' g (named_servers rest) c (scan-Knows n rest f' g h₂))
      ]
  scan-Knows n ((key, Value.number m) ∷ rest) f g h =
      elim (Bool-cases (ends_with key (codes "_name"))) [
        | inr e ↦ scan-Knows n rest f g (rw (e, scan) at h)
        | inl e ↦ cc (rw (e, scan) at h)
      ]
  scan-Knows n ((key, Value.flag b) ∷ rest) f g h =
      elim (Bool-cases (ends_with key (codes "_name"))) [
        | inr e ↦ scan-Knows n rest f g (rw (e, scan) at h)
        | inl e ↦ cc (rw (e, scan) at h)
      ]
