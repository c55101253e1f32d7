-- ===== src/Client/Registry/Unique.antt =====
-- No server is found twice: the assertion of `init` holds.
use distplusplus.Base.{
  ℕ, ◌≡◌, refl, ap, true, false, ◌||◌, List, [], ◌∷◌, ◌++◌, arith, if◌then◌else◌, Bool-cases, inl,
  inr, All,
}
use distplusplus.Base.Text.{Text, codes, text_eq, text_eq_iff, is_one_of}
use distplusplus.Common.Status.{Status, StatusCode}
use distplusplus.Server.Query.{QueryAnswer}
use distplusplus.Client.Database.{Value, Table}
use distplusplus.Client.Registry.{
  Known, Found, names, add_configured, renew, all_different, ends_with,
}

pub names-append :
    (xs : List Known) (s : Known) → names (xs ++ (s ∷ [])) ≡ names xs ++ (s.server ∷ [])
names-append [] s = refl
names-append (x ∷ xs) s = ap (◌∷◌ x.server) (names-append xs s)

pub is_one_of-append :
    (t : Text) (xs : List Text) (s : Text)
    → is_one_of t (xs ++ (s ∷ [])) ≡ (is_one_of t xs || text_eq t s)
unfolding is_one_of
is_one_of-append t [] s = ground arith
is_one_of-append t (x ∷ xs) s = ground (arith, is_one_of-append t xs s)

all_different-append :
    (xs : List Text) (s : Text)
    → all_different xs ≡ true
    → is_one_of s xs ≡ false
    → all_different (xs ++ (s ∷ [])) ≡ true
unfolding all_different is_one_of
all_different-append [] s h k = refl
all_different-append (x ∷ xs) s h k =
    ground
      (arith, all_different-append xs s, is_one_of-append x xs s, text_eq_iff s x, text_eq_iff x s)

-- The names are different, within each list and between the two.
pub record IsDistinct (f : Found) : Type 0 where
  pub renewed : all_different (names f.renewed) ≡ true
  pub available : all_different (names f.available) ≡ true
  pub apart : All (λ t. is_one_of t (names f.available) ≡ false) (names f.renewed)

All-snoc : (P : Text → Type 0) (xs : List Text) (s : Text) → All P xs → P s → All P (xs ++ (s ∷ []))
All-snoc P [] s h k = (k, tt)
All-snoc P (x ∷ xs) s h k = (h.0, All-snoc P xs s h.1 k)

pub apart-append :
    (xs ys : List Text) (s : Text)
    → All (λ t. is_one_of t ys ≡ false) xs
    → is_one_of s xs ≡ false
    → All (λ t. is_one_of t (ys ++ (s ∷ [])) ≡ false) xs
unfolding is_one_of
apart-append [] ys s h k = tt
apart-append (x ∷ xs) ys s h k = (
  ground (arith, h.0, is_one_of-append x ys s, text_eq_iff s x, text_eq_iff x s),
  apart-append xs ys s h.1 (ground arith),
)

pub renewed-IsDistinct :
    (f : Found) (s : Known)
    → IsDistinct f
    → is_one_of s.server (names f.renewed) ≡ false
    → is_one_of s.server (names f.available) ≡ false
    → IsDistinct (record f { renewed = f.renewed ++ (s ∷ []) })
renewed-IsDistinct f s d h k = record {
  renewed =
      rw (names-append f.renewed s) (all_different-append (names f.renewed) s.server d.renewed h);
  available = d.available;
  apart = rw (names-append f.renewed s) (All-snoc _ (names f.renewed) s.server d.apart k);
}

pub available-IsDistinct :
    (f : Found) (s : Known)
    → IsDistinct f
    → is_one_of s.server (names f.renewed) ≡ false
    → is_one_of s.server (names f.available) ≡ false
    → IsDistinct (record f { available = f.available ++ (s ∷ []) })
available-IsDistinct f s d h k = record {
  renewed = d.renewed;
  available =
      rw (names-append f.available s)
        (all_different-append (names f.available) s.server d.available k);
  apart =
      rw (names-append f.available s)
        (apart-append (names f.renewed) (names f.available) s.server d.apart h);
}

pub add_configured-IsDistinct :
    (servers : List Text) (f : Found) → IsDistinct f → IsDistinct (add_configured servers f)
unfolding add_configured
add_configured-IsDistinct [] f d = d
add_configured-IsDistinct (server ∷ servers) f d =
    elim (Bool-cases (is_one_of server (names f.renewed) || is_one_of server (names f.available))) [
      | inl e ↦ rw (e, add_configured) (add_configured-IsDistinct servers f d)
      | inr e ↦
          rw (e, add_configured)
            (add_configured-IsDistinct servers _ (
              renewed-IsDistinct f (record { current_load = 0; server = server }) d
                (ground (arith, e)) (ground (arith, e))))
    ]

pub by_ok :
    {A : Type 0} (P : A → Type 0) (c : StatusCode) (x y : A)
    → (c ≡ StatusCode.ok → P x)
    → P y
    → P (elim c [ StatusCode.ok ↦ x | _ ↦ y ])
by_ok P StatusCode.ok x y h k = h refl
by_ok P _ x y h k = k

pub renew-all_different :
    (reply : Text → Status × QueryAnswer) (compiler : Text) (mtime : ℕ) (behind : Text → List ℕ)
    (rest available : List Known) (t : Table)
    → all_different (names available) ≡ true
    → all_different (names rest) ≡ true
    → All (λ n. is_one_of n (names available) ≡ false) (names rest)
    → all_different (names (renew reply compiler mtime behind rest available t).0) ≡ true
unfolding renew all_different
renew-all_different reply compiler mtime behind [] available t a r d = a
renew-all_different reply compiler mtime behind (s ∷ rest) available t a r d =
    let first : is_one_of s.server (names rest) ≡ false = ground (arith, r) in
    let others : all_different (names rest) ≡ true = ground (arith, r) in
    by_ok (λ (q : List Known × Table). all_different (names q.0) ≡ true) (reply s.server).0.code _ _
      (λ accepted.
        let new : Known = record {
          current_load = (reply s.server).1.current_load;
          server = s.server;
        } in
        renew-all_different reply compiler mtime behind rest (available ++ (new ∷ [])) _
          (rw (names-append available new) (all_different-append (names available) s.server a d.0))
          others
          (rw (names-append available new)
            (apart-append (names rest) (names available) s.server d.1 first)))
      (renew-all_different reply compiler mtime behind rest available _ a others d.1)

-- The servers that a table names.
unfoldable pub named_servers : Table → List Text
named_servers [] = []
named_servers ((key, Value.text name) ∷ rest) =
    let others = named_servers rest in
    if ends_with key (codes "_name") then name ∷ others else others
named_servers ((key, _) ∷ rest) = named_servers rest
