-- ===== src/Client/Sending/Passes.antt =====
-- How the search for a server ends.
use distplusplus.Base.{
  ℕ, ◌≡◌, ◌≢◌, refl, sym, ap, ◌∙◌, ◌⊎◌, inl, inr, Bool, true, false, List, [], ◌∷◌, ◌++◌, none,
  some, Result, ok, All, arith, subst, Result-cases,
}
use distplusplus.Base.Text.{Text}
use distplusplus.Common.Status.{StatusCode}
use distplusplus.Client.Sending.{Failure, Reply, reserve, Pass, by_code, pass, Slot, after_pass}

-- The three ways to go on.
pub data Codes (c : StatusCode) : Type 0 where
  accepts : c ≡ StatusCode.ok → Codes c
  is_full : c ≡ StatusCode.resource_exhausted → Codes c
  is_down :
      c ≢ StatusCode.ok
      → c ≢ StatusCode.resource_exhausted
      → ((server uuid : Text) (down : Bool) (next : Bool → Result Failure Pass)
          → by_code c server uuid down next ≡ next down)
      → Codes c

pub code_cases : (c : StatusCode) → Codes c
unfolding by_code
code_cases StatusCode.ok = accepts refl
code_cases StatusCode.resource_exhausted = is_full refl
code_cases _ = is_down (λ e. cc) (λ e. cc) (λ s u d n. refl)

module _ (reply : Text → Reply) where
  abbrev code : Text → StatusCode
  code t = (reply t).status.code

  -- `server` is the first that accepts, and `uuid` is the one of its reply.
  pub record IsFound (servers : List Text) (server uuid : Text) : Type 0 where
    pub front : List Text
    pub back : List Text
    pub split : servers ≡ front ++ (server ∷ back)
    pub refused : All (λ t. code t ≢ StatusCode.ok) front
    pub accepted : code server ≡ StatusCode.ok
    pub fresh : (reply server).answer.success ≡ true → (reply server).answer.uuid ≡ some uuid

  -- What a pass shows.
  pub record Shows (servers : List Text) (r : Pass) : Type 0 where
    pub none_accepts : r.found ≡ none → All (λ t. code t ≢ StatusCode.ok) servers
    pub none_is_full : r.all_down ≡ true → All (λ t. code t ≢ StatusCode.resource_exhausted) servers
    pub is_found :
        (server : Text)
        → r.found ≡ some server
        → IsFound servers server r.uuid × (r.all_down ≡ false)

  reserved :
      (r : Reply) (uuid : Text) {c : StatusCode} {u : Text}
      → reserve r uuid ≡ ok (c, u)
      → (c ≡ r.status.code) × (r.answer.success ≡ true → r.answer.uuid ≡ some u)
  unfolding reserve
  reserved r uuid h = ground arith

  further :
      (server : Text) (servers : List Text) (r : Pass)
      → code server ≢ StatusCode.ok
      → (r.all_down ≡ true → code server ≢ StatusCode.resource_exhausted)
      → Shows servers r
      → Shows (server ∷ servers) r
  further server servers r other full s = record {
    none_accepts = λ e. (other, s.none_accepts e);
    none_is_full = λ e. (full e, s.none_is_full e);
    is_found = λ t e.
        let (f, d) = s.is_found t e in
        (
          record {
            front = server ∷ f.front;
            back = f.back;
            split = ap (◌∷◌ server) f.split;
            refused = (other, f.refused);
            accepted = f.accepted;
            fresh = f.fresh;
          },
          d,
        );
  }

  -- What the first server of a pass does.
  data Begins (server : Text) (servers : List Text) (down : Bool) (r : Pass) : Type 0 where
    stops :
        code server ≡ StatusCode.ok
        → ((reply server).answer.success ≡ true → (reply server).answer.uuid ≡ some r.uuid)
        → r.all_down ≡ false
        → r.found ≡ some server
        → Begins server servers down r
    goes_on :
        (uuid : Text) (d : Bool)
        → code server ≢ StatusCode.ok
        → (d ≡ true → (down ≡ true) × (code server ≢ StatusCode.resource_exhausted))
        → pass reply servers uuid d ≡ ok r
        → Begins server servers down r

  begins :
      (server : Text) (servers : List Text) (uuid : Text) (down : Bool) (r : Pass)
      → pass reply (server ∷ servers) uuid down ≡ ok r
      → Begins server servers down r
  unfolding pass by_code
  begins server servers uuid down r h = elim (Result-cases (reserve (reply server) uuid)) [
    | inl (w, e) ↦ cc (rw (e, pass) at h)
    | inr ((c, u), e) ↦
        let (same, fresh) = reserved (reply server) uuid e in
        let h' : by_code c server u down (pass reply servers u) ≡ ok r = rw (e, pass) at h in
        elim (code_cases c) [
          | accepts a ↦
              let g : record { uuid = u; all_down = false; found = some server } ≡ r =
                cc (rw (a, by_code) at h') in
              stops (sym same ∙ a)
                (subst
                  (λ (q : Pass).
                    (reply server).answer.success ≡ true → (reply server).answer.uuid ≡ some q.uuid)
                  g fresh)
                (sym (ap (λ (q : Pass). q.all_down) g)) (sym (ap (λ (q : Pass). q.found) g))
          | is_full a ↦ goes_on u false (λ b. cc) (λ f. cc) (rw (a, by_code) at h')
          | is_down a b next ↦
              goes_on u down (λ f. a (same ∙ f)) (λ f. (f, λ g. b (same ∙ g)))
                (sym (next server u down (pass reply servers u)) ∙ h')
        ]
  ]

  pass_down :
      (servers : List Text) (uuid : Text) (down : Bool) (r : Pass)
      → pass reply servers uuid down ≡ ok r
      → r.all_down ≡ true
      → down ≡ true
  unfolding pass
  pass_down [] uuid down r h e = cc
  pass_down (server ∷ servers) uuid down r h e = elim (begins server servers uuid down r h) [
    | stops a f d s ↦ cc
    | goes_on u d a f g ↦ (f (pass_down servers u d r g e)).0
  ]

  pub pass-Shows :
      (servers : List Text) (uuid : Text) (down : Bool) (r : Pass)
      → pass reply servers uuid down ≡ ok r
      → Shows servers r
  unfolding pass
  pass-Shows [] uuid down r h = record {
    none_accepts = λ e. tt;
    none_is_full = λ e. tt;
    is_found = λ t e. cc;
  }
  pass-Shows (server ∷ servers) uuid down r h = elim (begins server servers uuid down r h) [
    | stops a f d s ↦ record {
      none_accepts = λ e. cc;
      none_is_full = λ e. cc;
      is_found = λ t e.
          let same : server ≡ t = cc in
          (
            subst (λ x. IsFound (server ∷ servers) x r.uuid) same
                (record {
                  front = [];
                  back = servers;
                  split = refl;
                  refused = tt;
                  accepted = a;
                  fresh = f;
                }),
            d,
          );
    }
    | goes_on u d a f g ↦
        further server servers r a (λ e. (f (pass_down servers u d r g e)).1)
          (pass-Shows servers u d r g)
  ]

module _ (reply : ℕ → Text → Reply) (now : ℕ → ℕ) (servers : List Text) (before timeout : ℕ) where
  pub after_found :
      (i : ℕ) (r : Pass) (next : Unit {0} → Result Failure Slot) (slot : Slot)
      → after_pass reply now servers before timeout i r next ≡ ok slot
      → ((r.found ≡ some slot.server) × (r.uuid ≡ slot.uuid)) ⊎ (next tt ≡ ok slot)
  unfolding after_pass
  after_found i r next slot h = ground arith
