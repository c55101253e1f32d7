-- ===== src/Server/Parser/Outcomes.antt =====
-- How `parse` ends: with the filtered arguments, or with one of three messages.
use mathlib.Core.List.{append-nil, append_assoc, Sublistᴰ}
use distplusplus.Base.{
  true, false, ◌≡◌, refl, sym, ap, subst, ◌∙◌, inl, inr, List, [], ◌∷◌, ◌++◌, Result, ok, err, All,
  Bool-cases, ◌↔◌,
}
use distplusplus.Base.Text.{Text}
use distplusplus.Server.Parser.{
  Verdict, verdict, parse_loop, parse, non_distributable, last_argument, not_a_compile,
}
use distplusplus.Server.Parser.Filters.{
  banned, IsPlain, IsPair, IsAlone, Filters, done, kept, alone, pair, has_compile, verdict-IsPlain,
  verdict-IsPair, verdict-IsAlone, verdict-banned, IsPair-verdict, banned-verdict,
  parse_loop-Filters, Filters-IsPlain, IsPlain-Filters, Filters-Sublistᴰ, Filters-append,
}

-- Where the loop stops.
pub data Stops (args : List Text) : Result Text (List Text) → Type 0 where
  accepted : {out : List Text} → Filters args out → has_compile out ≡ true → Stops args (ok out)
  no_compile :
      {out : List Text}
      → Filters args out
      → has_compile out ≡ false
      → Stops args (err not_a_compile)
  at_banned :
      (before out after : List Text) (arg : Text)
      → args ≡ before ++ (arg ∷ after)
      → Filters before out
      → banned arg ≡ true
      → Stops args (err (non_distributable arg))
  at_last :
      (before out : List Text) (arg : Text)
      → args ≡ before ++ (arg ∷ [])
      → Filters before out
      → IsPair arg
      → Stops args (err (last_argument arg))

-- How far the arguments can be filtered.
data Reads (args : List Text) : Type 0 where
  all : (out : List Text) → Filters args out → Reads args
  banned_at :
      (before out after : List Text) (arg : Text)
      → args ≡ before ++ (arg ∷ after)
      → Filters before out
      → banned arg ≡ true
      → Reads args
  last_at :
      (before out : List Text) (arg : Text)
      → args ≡ before ++ (arg ∷ [])
      → Filters before out
      → IsPair arg
      → Reads args

data Kinds (arg : Text) : Type 0 where
  is_banned : banned arg ≡ true → Kinds arg
  is_alone : IsAlone arg → Kinds arg
  is_pair : IsPair arg → Kinds arg
  is_plain : IsPlain arg → Kinds arg

kinds : (arg : Text) → Kinds arg
kinds arg = go (verdict arg) refl
  where
    go : (v : Verdict) → verdict arg ≡ v → Kinds arg
    go Verdict.reject e = is_banned (verdict-banned arg e)
    go Verdict.filter e = is_alone (verdict-IsAlone arg e)
    go Verdict.filter_pair e = is_pair (verdict-IsPair arg e)
    go Verdict.keep e = is_plain (verdict-IsPlain arg e)

-- A filtered front moves the stop further back.
extend :
    (front kept_of : List Text) {rest : List Text}
    → Filters front kept_of
    → Reads rest
    → Reads (front ++ rest)
extend front ks g (all out f) = all (ks ++ out) (Filters-append g f)
extend front ks g (banned_at before out after arg e f b) =
    banned_at (front ++ before) (ks ++ out) after arg (rw e (sym (append_assoc front before _)))
      (Filters-append g f) b
extend front ks g (last_at before out arg e f p) =
    last_at (front ++ before) (ks ++ out) arg (rw e (sym (append_assoc front before _)))
      (Filters-append g f) p

reads : (args : List Text) → Reads args
reads [] = all [] done
reads (arg ∷ []) = elim (kinds arg) [
  | is_banned b ↦ banned_at [] [] [] arg refl done b
  | is_alone p ↦ all [] (alone p done)
  | is_pair p ↦ last_at [] [] arg refl done p
  | is_plain p ↦ all (arg ∷ []) (kept p done)
]
reads (arg ∷ next ∷ rest) =
    let far = reads rest in
    let near = reads (next ∷ rest) in
    elim (kinds arg) [
      | is_banned b ↦ banned_at [] [] (next ∷ rest) arg refl done b
      | is_alone p ↦ extend (arg ∷ []) [] (alone p done) near
      | is_pair p ↦ extend (arg ∷ next ∷ []) [] (pair p done) far
      | is_plain p ↦ extend (arg ∷ []) (arg ∷ []) (kept p done) near
    ]

pub parse_accepts :
    {args out : List Text} → Filters args out → has_compile out ≡ true → parse args ≡ ok out
unfolding parse parse_loop
parse_accepts {args} {out} f c =
    subst (λ xs. parse_loop xs false [] false ≡ ok out) (append-nil args)
      (parse_loop-Filters f [] [] false ∙ rw c)

pub parse_no_compile :
    {args out : List Text}
    → Filters args out
    → has_compile out ≡ false
    → parse args ≡ err not_a_compile
unfolding parse parse_loop
parse_no_compile {args} {out} f c =
    subst (λ xs. parse_loop xs false [] false ≡ err not_a_compile) (append-nil args)
      (parse_loop-Filters f [] [] false ∙ rw c)

-- If the arguments before a banned one can be filtered, `parse` returns the message that names the
-- banned one, whatever follows it.
pub parse-banned :
    {before out : List Text} (after : List Text) (arg : Text)
    → Filters before out
    → banned arg ≡ true
    → parse (before ++ (arg ∷ after)) ≡ err (non_distributable arg)
unfolding parse parse_loop
parse-banned after arg f b =
    parse_loop-Filters f (arg ∷ after) [] false ∙ rw (banned-verdict arg b, parse_loop)

parse-last :
    {before out : List Text} (arg : Text)
    → Filters before out
    → IsPair arg
    → parse (before ++ (arg ∷ [])) ≡ err (last_argument arg)
unfolding parse parse_loop
parse-last arg f p =
    parse_loop-Filters f (arg ∷ []) [] false ∙ rw (IsPair-verdict arg p, parse_loop)

-- The result of `parse` is the filtered arguments, or the message for the first banned argument,
-- for an option at the end that lacks its value, or for a missing `-c`, and where the loop stops
-- is as `Stops` says.
pub parse-Stops : (args : List Text) → Stops args (parse args)
parse-Stops args = elim (reads args) [
  | all out f ↦ elim (Bool-cases (has_compile out)) [
    | inl c ↦ rw (parse_accepts f c) (accepted f c)
    | inr c ↦ rw (parse_no_compile f c) (no_compile f c)
  ]
  | banned_at before out after arg e f b ↦
      rw (ap parse e ∙ parse-banned after arg f b) (at_banned before out after arg e f b)
  | last_at before out arg e f p ↦
      rw (ap parse e ∙ parse-last arg f p) (at_last before out arg e f p)
]

accepted_inv :
    {args out : List Text} {r : Result Text (List Text)}
    → Stops args r
    → r ≡ ok out
    → Filters args out × (has_compile out ≡ true)
accepted_inv {args} (accepted f c) e =
    subst (λ o. Filters args o × (has_compile o ≡ true)) (cc) (f, c)
accepted_inv (no_compile f c) e = cc
accepted_inv (at_banned before out after arg e f b) h = cc
accepted_inv (at_last before out arg e f p) h = cc

-- `parse` returns `out` exactly when `out` is what the relation `Filters` leaves of the arguments,
-- and `out` has a `-c`.
pub parse-eq-ok_iff :
    (args out : List Text) → (parse args ≡ ok out) ↔ (Filters args out × (has_compile out ≡ true))
parse-eq-ok_iff args out = (accepted_inv (parse-Stops args), λ h. parse_accepts h.0 h.1)

-- If `parse` returns `out`, then `out` is a sublist of the arguments, has only arguments that are
-- in none of the tables, and has a `-c`.
pub parse_sound :
    (args out : List Text)
    → parse args ≡ ok out
    → Sublistᴰ out args × All IsPlain out × (has_compile out ≡ true)
parse_sound args out h =
    let (f, c) = (parse-eq-ok_iff args out).0 h in (Filters-Sublistᴰ f, Filters-IsPlain f, c)

-- If `parse` returns `out`, then `parse` returns `out` for `out` too.
pub parse_idem : (args out : List Text) → parse args ≡ ok out → parse out ≡ ok out
parse_idem args out h =
    let (f, c) = (parse-eq-ok_iff args out).0 h in
    parse_accepts (IsPlain-Filters out (Filters-IsPlain f)) c
