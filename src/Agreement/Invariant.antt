-- ===== src/Agreement/Invariant.antt =====
-- The client's arguments stay such that the server can filter them, while the parse goes on.
use mathlib.Core.List.{append_assoc}
use distplusplus.Base.{
  check_cases, ℕ, Bool, true, false, not, ◌≡◌, ◌≢◌, refl, sym, ap, ◌∙◌, ◌⊎◌, inl, inr, List, [],
  ◌∷◌, ◌++◌, Option, none, some, Result, ok, err, ◌>>=◌, arith, Bool-cases, drop, subst,
}
use distplusplus.Base.Text.{Text, codes, text_eq, text_eq→≡, is_empty, is_one_of, is_one_of-All}
use distplusplus.Base.FilePath.{extension}
use distplusplus.Common.Constants.{multi_args_cpp, x_args_c, x_args_cxx, input_file_extension}
use distplusplus.Server.Parser.Filters.{IsPair}
use distplusplus.Client.Parser.{
  FileSystem, Stop, Parser, empty_parser, Kind, kind, forbidden, Pending, take_value, option_step,
  parse_args, check_input_file_candidate,
}
use distplusplus.Client.Parser.Rule.{Ensures, Keeps, parse_args-Ensures}
use distplusplus.Agreement.Tables.{IsQuiet, languages_IsQuiet, options_IsQuiet}
use distplusplus.Agreement.{
  Filtered, Filtered-append, Filtered-one, Filtered-two, Filtered-pair, Filtered-nil, IsPair-value,
}

-- No target was given, and distribution is not excluded.
abbrev pub Open : Parser → Type 0
Open p = (p.target ≡ none) × (p.can_distribute ≢ some false)

-- The last argument is an option that waits for its value.
abbrev Ends : (Text → Type 0) → List Text → Type 0
Ends P args =
    (front : List Text) × (arg : Text) × (args ≡ front ++ (arg ∷ [])) × Filtered front × P arg

abbrev J : Option Pending → Parser → Type 0
J none p = Open p → Filtered p.args
J (some Pending.to_outfile) p = Open p → Filtered p.args
J (some Pending.to_language) p = Open p → Ends IsQuiet p.args
J (some Pending.to_target) p = Unit
J (some Pending.to_args) p = Open p → Ends IsPair p.args

-- What the loop has tested of an argument that it pushes alone.
abbrev Single : Text → Type 0
Single arg =
    (forbidden arg ≡ false)
    × (is_one_of arg multi_args_cpp ≡ false)
    × (text_eq arg (codes "-c") ≡ false)

facts :
    (fs : FileSystem) (arg : Text) (k : Kind)
    → kind fs arg ≡ k
    → ((k ≡ Kind.other) ⊎ (k ≡ Kind.regular_file) → Single arg)
      × (k ≡ Kind.value_option → (forbidden arg ≡ false) × (is_one_of arg multi_args_cpp ≡ true))
      × (k ≡ Kind.language_option → text_eq arg (codes "-x") ≡ true)
unfolding kind
facts fs arg k h = (λ e. ground arith, λ e. ground arith, λ e. ground arith)

going_on :
    (m : Result Stop Parser)
    → Ensures (J none) m
    → Ensures (λ (r : Option Pending × Parser). J r.0 r.1) (m >>= λ p. ok (none, p))
going_on (ok p) v = v
going_on (err e) v = tt

-- An argument that is pushed alone.
pushed :
    (arg : Text) (args : List Text) → Single arg → Filtered args → Filtered (args ++ (arg ∷ []))
pushed arg args f g = Filtered-append args (arg ∷ []) g (Filtered-one arg f.0 f.1 f.2)

candidate-J :
    (file : Text) (p : Parser)
    → Single file
    → J none p
    → Ensures (J none) (check_input_file_candidate file p)
unfolding check_input_file_candidate
candidate-J file p f v = elim (Bool-cases (is_one_of (extension file) input_file_extension)) [
  | inl e ↦ elim (Bool-cases (not (is_empty p.infile))) [
    | inl g ↦ rw (e, g) tt
    | inr g ↦ rw (e, g) v
  ]
  | inr e ↦ rw e (λ o. pushed file p.args f (v o))
]

module _ (fs : FileSystem) (nested : List Text → Parser → Result Stop Parser)
    (below : (args : List Text) (p : Parser) → J none p → Ensures (J none) (nested args p)) where
  by_kind :
      (k : Kind) (arg : Text) (last : Bool) (p : Parser)
      → kind fs arg ≡ k
      → J none p
      → Ensures (λ r. J r.0 r.1) (option_step fs nested k arg last p)
  unfolding option_step
  by_kind Kind.falls_back arg last p e v = tt
  by_kind Kind.args_file arg last p e v = elim (check_cases (fs.is_regular_file (drop 1 arg))) [
    | inl f ↦ rw (f, option_step) (going_on _ (below _ p v))
    | inr (inl f) ↦ rw (f, option_step) tt
    | inr (inr f) ↦ rw (f, option_step) tt
  ]
  by_kind Kind.throws arg last p e v = tt
  by_kind Kind.output arg true p e v = tt
  by_kind Kind.output arg false p e v = elim (Bool-cases (not (is_empty p.outfile))) [
    | inl f ↦ rw f tt
    | inr f ↦ rw f v
  ]
  by_kind Kind.output_joined arg last p e v = v
  by_kind Kind.mode arg last p e v = moded p.can_distribute refl
    where
      moded :
          (c : Option Bool)
          → p.can_distribute ≡ c
          → Ensures
              (λ (r : Option Pending × Parser). J r.0 r.1)
              (elim c [
                | none ↦ ok (none, record p { mode_arg = arg; can_distribute = some true })
                | some b ↦ ok (none, record p { mode_arg = arg })
              ])
      moded none c = λ o. v (o.0, λ f. cc)
      moded (some b) c = v
  by_kind Kind.language_option arg true p e v = tt
  by_kind Kind.language_option arg false p e v = λ o. (
    p.args,
    arg,
    refl,
    v o,
    rw (text_eq→≡ arg (codes "-x") ((facts fs arg _ e).2 refl)) options_IsQuiet.0,
  )
  by_kind Kind.target_option arg true p e v = tt
  by_kind Kind.target_option arg false p e v = tt
  by_kind Kind.target_joined arg last p e v = λ o. cc
  by_kind Kind.value_option arg true p e v = tt
  by_kind Kind.value_option arg false p e v =
      λ o. let f = (facts fs arg _ e).1 refl in (p.args, arg, refl, v o, IsPair-value arg f.0 f.1)
  by_kind Kind.regular_file arg last p e v =
      going_on _ (candidate-J arg p ((facts fs arg _ e).0 (inr refl)) v)
  by_kind Kind.other arg last p e v = λ o. pushed arg p.args ((facts fs arg _ e).0 (inl refl)) (v o)

closed :
    (P : Text → Type 0) (args : List Text) (value : Text)
    → ((arg : Text) → P arg → Filtered (arg ∷ value ∷ []))
    → Ends P args
    → Filtered (args ++ (value ∷ []))
closed P args value two (front, arg, e, f, q) =
    subst Filtered
      (sym (append_assoc front (arg ∷ []) (value ∷ [])) ∙ ap (λ xs. xs ++ (value ∷ [])) (sym e))
      (Filtered-append front (arg ∷ value ∷ []) f (two arg q))

language-J :
    (value : Text) (p : Parser)
    → J (some Pending.to_language) p
    → J none (take_value Pending.to_language value p)
unfolding take_value
language-J value p v = elim (Bool-cases (is_one_of value x_args_c)) [
  | inl c ↦ rw c λ o. plain (is_one_of-All IsQuiet value x_args_c languages_IsQuiet.0 c) o
  | inr n ↦ elim (Bool-cases (is_one_of value x_args_cxx)) [
    | inl c ↦ rw (n, c) λ o. plain (is_one_of-All IsQuiet value x_args_cxx languages_IsQuiet.1 c) o
    | inr m ↦ rw (n, m) λ o. absurd (o.1 refl)
  ]
]
  where
    plain : IsQuiet value → Open p → Filtered (p.args ++ (value ∷ []))
    plain f o = closed IsQuiet p.args value (λ arg q. Filtered-two arg value q f) (v o)

value-J : (q : Pending) (value : Text) (p : Parser) → J (some q) p → J none (take_value q value p)
unfolding take_value
value-J Pending.to_outfile value p v = v
value-J Pending.to_language value p v = language-J value p v
value-J Pending.to_target value p v = λ o. cc
value-J Pending.to_args value p v =
    λ o. closed IsPair p.args value (λ arg q. Filtered-pair arg value q) (v o)

keeps : (fs : FileSystem) → Keeps fs J
keeps fs = record {
  at_option = λ nested below arg last p v. by_kind fs nested below (kind fs arg) arg last p refl v;
  at_value = value-J;
}

-- Whatever the arguments and their files are, if no target was given and the parse does not exclude
-- distribution, the server can filter what was collected.
pub parse_args-Filtered :
    (fs : FileSystem) (fuel : ℕ) (args : List Text)
    → Ensures (λ p. Open p → Filtered p.args) (parse_args fs fuel args empty_parser)
parse_args-Filtered fs fuel args =
    parse_args-Ensures fs J (keeps fs) fuel args empty_parser (λ o. Filtered-nil)
