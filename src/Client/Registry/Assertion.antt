-- ===== src/Client/Registry/Assertion.antt =====
-- The assertion at the end of `init` holds, if no two entries of the table name one server.
use distplusplus.Base.{
  ℕ, ◌≡◌, ◌≢◌, refl, sym, Bool, true, false, List, [], ◌∷◌, ◌++◌, Option, none, some, ok, err,
  >>=-eq-ok, arith, Bool-cases, Result-cases, inl, inr, All, ◌⊎◌, subst,
}
use distplusplus.Base.Text.{Text, codes, is_one_of}
use distplusplus.Common.Status.{Status}
use distplusplus.Common.Compression.{CompressionType}
use distplusplus.Server.Query.{QueryAnswer}
use distplusplus.Client.Database.{Value, Table, get}
use distplusplus.Client.Registry.{
  Known, Found, Problem, names, add_configured, all_different, classify, scan, ends_with, number_of,
  compression_changed, conclude, init,
}
use distplusplus.Client.Registry.Unique.{
  IsDistinct, renewed-IsDistinct, available-IsDistinct, add_configured-IsDistinct,
  renew-all_different, apart-append, names-append, named_servers,
}

-- The servers that are still to be read are not in the lists.
record IsAhead (f : Found) (ns : List Text) : Type 0 where
  distinct : IsDistinct f
  different : all_different ns ≡ true
  old : All (λ n. is_one_of n (names f.renewed) ≡ false) ns
  fresh : All (λ n. is_one_of n (names f.available) ≡ false) ns

module _ (changed : Bool) (now : ℕ) (table : Table) where
  classified :
      (s : Known) (f g : Found)
      → classify changed now table s f ≡ ok g
      → (g ≡ record f { renewed = f.renewed ++ (s ∷ []) })
        ⊎ (g ≡ record f { available = f.available ++ (s ∷ []) })
  unfolding classify
  classified s f g h = elim (Bool-cases changed) [
    | inl e ↦ inl (cc (rw (e, classify) at h))
    | inr e ↦
        let (age, a, k) =
          >>=-eq-ok (number_of (get (s.server ++ codes "_age") table)) _ (rw (e, classify) at h) in
        ground arith
  ]

  classify-IsAhead :
      (s : Known) (f g : Found) (ns : List Text)
      → IsAhead f (s.server ∷ ns)
      → classify changed now table s f ≡ ok g
      → IsAhead g ns
  unfolding all_different
  classify-IsAhead s f g ns a h =
      let first : is_one_of s.server ns ≡ false = ground (arith, a.different) in
      let others : all_different ns ≡ true = ground (arith, a.different) in
      elim (classified s f g h) [
        | inl e ↦
            subst (λ x. IsAhead x ns) (sym e)
              (record {
                distinct = renewed-IsDistinct f s a.distinct a.old.0 a.fresh.0;
                different = others;
                old =
                    rw (names-append f.renewed s)
                      (apart-append ns (names f.renewed) s.server a.old.1 first);
                fresh = a.fresh.1;
              })
        | inr e ↦
            subst (λ x. IsAhead x ns) (sym e)
              (record {
                distinct = available-IsDistinct f s a.distinct a.old.0 a.fresh.0;
                different = others;
                old = a.old.1;
                fresh =
                    rw (names-append f.available s)
                      (apart-append ns (names f.available) s.server a.fresh.1 first);
              })
      ]

  scan-IsDistinct :
      (rest : Table) (f g : Found)
      → scan changed now table rest f ≡ ok g
      → IsAhead f (named_servers rest)
      → IsDistinct g
  unfolding scan named_servers
  scan-IsDistinct [] f g h a = let e : f ≡ g = cc in subst IsDistinct e a.distinct
  scan-IsDistinct ((key, Value.text name) ∷ rest) f g h a =
      elim (Bool-cases (ends_with key (codes "_name"))) [
        | inr e ↦
            scan-IsDistinct rest f g (rw (e, scan) at h)
              (subst (IsAhead f) (rw (e, named_servers) refl) a)
        | inl e ↦
            let (load, k, h₁) =
              >>=-eq-ok (number_of (get (name ++ codes "_currentLoad") table)) _
                (rw (e, scan) at h) in
            let s : Known = record { current_load = load; server = name } in
            let (f', c, h₂) = >>=-eq-ok (classify changed now table s f) _ h₁ in
            scan-IsDistinct rest f' g h₂ (
              classify-IsAhead s f f' (named_servers rest)
                (subst (IsAhead f) (rw (e, named_servers) refl) a) c)
      ]
  scan-IsDistinct ((key, Value.number n) ∷ rest) f g h a =
      elim (Bool-cases (ends_with key (codes "_name"))) [
        | inr e ↦ scan-IsDistinct rest f g (rw (e, scan) at h) a
        | inl e ↦ cc (rw (e, scan) at h)
      ]
  scan-IsDistinct ((key, Value.flag b) ∷ rest) f g h a =
      elim (Bool-cases (ends_with key (codes "_name"))) [
        | inr e ↦ scan-IsDistinct rest f g (rw (e, scan) at h) a
        | inl e ↦ cc (rw (e, scan) at h)
      ]

  number_error : (v : Option Value) (w : Problem) → number_of v ≡ err w → w ≡ Problem.bad_value
  number_error none w h = cc
  number_error (some (Value.text s)) w h = cc
  number_error (some (Value.number n)) w h = cc
  number_error (some (Value.flag b)) w h = cc

  classify_error :
      (s : Known) (f : Found) (w : Problem)
      → classify changed now table s f ≡ err w
      → w ≡ Problem.bad_value
  unfolding classify
  classify_error s f w h =
      let none_read = number_error (get (s.server ++ codes "_age") table) w in
      ground (arith, none_read)

  scan_error :
      (rest : Table) (f : Found) (w : Problem)
      → scan changed now table rest f ≡ err w
      → w ≡ Problem.bad_value
  unfolding scan
  scan_error [] f w h = cc
  scan_error ((key, Value.text name) ∷ rest) f w h =
      elim (Bool-cases (ends_with key (codes "_name"))) [
        | inr e ↦ scan_error rest f w (rw (e, scan) at h)
        | inl e ↦ elim (Result-cases (number_of (get (name ++ codes "_currentLoad") table))) [
          | inl (v, k) ↦
              let bad = number_error (get (name ++ codes "_currentLoad") table) v k in
              cc (rw (e, scan, k) at h)
          | inr (load, k) ↦
              let s : Known = record { current_load = load; server = name } in
              elim (Result-cases (classify changed now table s f)) [
                | inl (v, c) ↦ let bad = classify_error s f v c in cc (rw (e, scan, k, c) at h)
                | inr (f', c) ↦ scan_error rest f' w (rw (e, scan, k, c) at h)
              ]
        ]
      ]
  scan_error ((key, Value.number n) ∷ rest) f w h =
      elim (Bool-cases (ends_with key (codes "_name"))) [
        | inr e ↦ scan_error rest f w (rw (e, scan) at h)
        | inl e ↦ cc (rw (e, scan) at h)
      ]
  scan_error ((key, Value.flag b) ∷ rest) f w h =
      elim (Bool-cases (ends_with key (codes "_name"))) [
        | inr e ↦ scan_error rest f w (rw (e, scan) at h)
        | inl e ↦ cc (rw (e, scan) at h)
      ]

nothing_found : (ns : List Text) → All (λ n. is_one_of n [] ≡ false) ns
unfolding is_one_of
nothing_found [] = tt
nothing_found (n ∷ ns) = (refl, nothing_found ns)

module _ (ndebug : Bool) (reply : Text → Status × QueryAnswer) (configured : List Text)
    (compiler : Text) (previous : Text) (type : CompressionType) (now mtime : ℕ)
    (behind : Text → List ℕ) where
  conclude-ne :
      (f : Found) (table : Table)
      → IsDistinct f
      → conclude ndebug reply configured compiler previous type now mtime behind f table
        ≢ err Problem.not_unique
  unfolding conclude
  conclude-ne f table d h =
      let e = add_configured-IsDistinct configured f d in
      let g = add_configured configured f in
      let different =
        renew-all_different reply compiler mtime behind g.renewed g.available table e.available
          e.renewed e.apart in
      ground (arith, different)

  -- If no two of the table's entries name one server, `init` does not fail its assertion, whatever
  -- is configured and whatever the servers reply.
  pub init-ne-not_unique :
      (table : Table)
      → all_different (named_servers table) ≡ true
      → init ndebug reply configured compiler previous type now mtime behind table
        ≢ err Problem.not_unique
  unfolding init all_different
  init-ne-not_unique table different h =
      let changed = compression_changed previous type in
      let nothing : Found = record { renewed = []; available = [] } in
      elim (Result-cases (scan changed now table table nothing)) [
        | inl (w, e) ↦ let bad = scan_error changed now table table nothing w e in cc (rw e at h)
        | inr (f, e) ↦
            conclude-ne f table
              (scan-IsDistinct changed now table table nothing f e (record {
                distinct = record { renewed = refl; available = refl; apart = tt };
                different = different;
                old = nothing_found (named_servers table);
                fresh = nothing_found (named_servers table);
              }))
              (rw e at h)
      ]
