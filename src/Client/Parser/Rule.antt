-- ===== src/Client/Parser/Rule.antt =====
-- One rule for all invariants of the parse: what the loop body keeps, nested argument files keep.
use distplusplus.Base.{
  check_cases, ℕ, zero, suc, Bool, not, List, [], ◌∷◌, Option, none, some, Result, ok, err, ◌>>=◌,
  arith, Bool-cases, inl, inr, drop,
}
use distplusplus.Base.Text.{Text, is_empty}
use distplusplus.Client.Parser.{
  FileSystem, Stop, Parser, Kind, kind, Pending, take_value, option_step, parse_loop, parse_args,
  is_last,
}

-- If there is a value, it is as described.
abbrev pub Ensures {ℓ} : {A : Type ℓ} → (A → Type 0) → Result Stop A → Type 0
Ensures P (ok a) = P a
Ensures P (err e) = Unit

pub Ensures->>= {ℓ κ} :
    {A : Type ℓ} {B : Type κ} (P : A → Type 0) (Q : B → Type 0) (m : Result Stop A)
    (f : A → Result Stop B)
    → Ensures P m
    → ((a : A) → P a → Ensures Q (f a))
    → Ensures Q (m >>= f)
Ensures->>= P Q (ok a) f h k = k a h
Ensures->>= P Q (err e) f h k = tt

pub Ensures-and {ℓ} :
    {A : Type ℓ} (P Q : A → Type 0) (m : Result Stop A)
    → Ensures P m
    → Ensures Q m
    → Ensures (λ a. P a × Q a) m
Ensures-and P Q (ok a) p q = (p, q)
Ensures-and P Q (err e) p q = tt

-- A value that is asked for is there.
abbrev pub Room : Option Pending → List Text → Type 0
Room none args = Unit
Room (some q) [] = ⊥
Room (some q) (_ ∷ _) = Unit

Room-none :
    (rest : List Text) (m : Result Stop Parser)
    → Ensures (λ (r : Option Pending × Parser). Room r.0 rest) (m >>= λ p. ok (none, p))
Room-none rest (ok p) = tt
Room-none rest (err e) = tt

module _ (fs : FileSystem) (nested : List Text → Parser → Result Stop Parser) where
  option_step-Room :
      (k : Kind) (arg : Text) (rest : List Text) (p : Parser)
      → Ensures (λ r. Room r.0 rest) (option_step fs nested k arg (is_last fs nested rest) p)
  unfolding option_step
  option_step-Room Kind.falls_back arg rest p = tt
  option_step-Room Kind.args_file arg rest p =
      elim (check_cases (fs.is_regular_file (drop 1 arg))) [
        | inl e ↦ rw (e, option_step) (Room-none rest _)
        | inr (inl e) ↦ rw (e, option_step) tt
        | inr (inr e) ↦ rw (e, option_step) tt
      ]
  option_step-Room Kind.throws arg rest p = tt
  option_step-Room Kind.output arg [] p = tt
  option_step-Room Kind.output arg (_ ∷ _) p = elim (Bool-cases (not (is_empty p.outfile))) [
    | inl e ↦ rw e tt
    | inr e ↦ rw e tt
  ]
  option_step-Room Kind.output_joined arg rest p = tt
  option_step-Room Kind.mode arg rest p = ground arith
  option_step-Room Kind.language_option arg [] p = tt
  option_step-Room Kind.language_option arg (_ ∷ _) p = tt
  option_step-Room Kind.target_option arg [] p = tt
  option_step-Room Kind.target_option arg (_ ∷ _) p = tt
  option_step-Room Kind.target_joined arg rest p = tt
  option_step-Room Kind.value_option arg [] p = tt
  option_step-Room Kind.value_option arg (_ ∷ _) p = tt
  option_step-Room Kind.regular_file arg rest p = Room-none rest _
  option_step-Room Kind.other arg rest p = tt

-- `J none` holds between two arguments, and `J (some q)` before the value that `q` is for.
module _ (fs : FileSystem) (J : Option Pending → Parser → Type 0) where
  -- The obligations for the loop body, over any nested parse that keeps the invariant.
  pub record Keeps : Type 0 where
    pub at_option :
        (nested : List Text → Parser → Result Stop Parser)
        → ((args : List Text) (p : Parser) → J none p → Ensures (J none) (nested args p))
        → (arg : Text) (last : Bool) (p : Parser) → J none p
        → Ensures (λ r. J r.0 r.1) (option_step fs nested (kind fs arg) arg last p)
    pub at_value :
        (q : Pending) (value : Text) (p : Parser) → J (some q) p → J none (take_value q value p)

  module _ (keeps : Keeps) where
    module _ (nested : List Text → Parser → Result Stop Parser)
        (below : (args : List Text) (p : Parser)
          → J none p
          → Ensures (J none) (nested args p)) where
      parse_loop-Ensures :
          (args : List Text) (pending : Option Pending) (p : Parser)
          → Room pending args
          → J pending p
          → Ensures (J none) (parse_loop fs nested args pending p)
      unfolding parse_loop
      parse_loop-Ensures [] none p room j = j
      parse_loop-Ensures [] (some q) p room j = absurd room
      parse_loop-Ensures (value ∷ rest) (some q) p room j =
          parse_loop-Ensures rest none _ tt (keeps.at_value q value p j)
      parse_loop-Ensures (arg ∷ rest) none p room j =
          let last = is_last fs nested rest in
          Ensures->>= _ _ (option_step fs nested (kind fs arg) arg last p) _
            (Ensures-and (λ r. Room r.0 rest) (λ r. J r.0 r.1) _
              (option_step-Room fs nested (kind fs arg) arg rest p)
              (keeps.at_option nested below arg last p j))
            (λ r h. parse_loop-Ensures rest r.0 r.1 h.0 h.1)

    pub parse_args-Ensures :
        (fuel : ℕ) (args : List Text) (p : Parser)
        → J none p
        → Ensures (J none) (parse_args fs fuel args p)
    unfolding parse_args
    parse_args-Ensures zero args p j = parse_loop-Ensures _ (λ _ _ _. tt) args none p tt j
    parse_args-Ensures (suc fuel) args p j =
        parse_loop-Ensures _ (parse_args-Ensures fuel) args none p tt j
