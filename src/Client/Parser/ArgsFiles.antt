-- ===== src/Client/Parser/ArgsFiles.antt =====
-- Argument files: which bound is enough, what a larger one changes, and files without any bound.
use distplusplus.Base.{
  check_cases, ℕ, zero, suc, ◌<◌, Bool, true, false, ◌≡◌, ◌≢◌, refl, subst, List, [], ◌∷◌, Option,
  none, some, Result, ok, err, ◌>>=◌, arith, inl, inr, drop, All,
}
use distplusplus.Base.Text.{Text, starts_with, starts_with_nil}
use distplusplus.Client.Parser.{
  FileSystem, Stop, Parser, Kind, kind, forbidden, Pending, option_step, parse_loop, parse_args,
  check_input_file_candidate, read_args, empty_parser, check_job, with_language, conclude, parse,
}

-- The bound was not met.
abbrev Finishes {ℓ} : {A : Type ℓ} → Result Stop A → Type 0
Finishes (ok a) = Unit
Finishes (err Stop.fallback_signal) = Unit
Finishes (err Stop.filesystem_error) = Unit
Finishes (err Stop.out_of_fuel) = ⊥
Finishes (err (Stop.parser_error m)) = Unit

Finishes->>= {ℓ κ} :
    {A : Type ℓ} {B : Type κ} (m : Result Stop A) (f : A → Result Stop B)
    → Finishes m
    → ((a : A) → Finishes (f a))
    → Finishes (m >>= f)
Finishes->>= (ok a) f h k = k a
Finishes->>= (err Stop.fallback_signal) f h k = tt
Finishes->>= (err Stop.filesystem_error) f h k = tt
Finishes->>= (err (Stop.parser_error m)) f h k = tt
Finishes->>= (err Stop.out_of_fuel) f h k = h

-- The half of a chain that ran.
Finishes-first {ℓ κ} :
    {A : Type ℓ} {B : Type κ} (m : Result Stop A) (f : A → Result Stop B)
    → Finishes (m >>= f)
    → Finishes m
Finishes-first (ok a) f h = tt
Finishes-first (err Stop.fallback_signal) f h = tt
Finishes-first (err Stop.filesystem_error) f h = tt
Finishes-first (err (Stop.parser_error m)) f h = tt
Finishes-first (err Stop.out_of_fuel) f h = h

module _ (fs : FileSystem) where
  -- The file that an argument names.
  abbrev NamesFile : Text → Type 0
  NamesFile arg = (kind fs arg ≡ Kind.args_file) × (fs.is_regular_file (drop 1 arg) ≡ some true)

  -- An argument that names a file names one of a rank below `n`.
  abbrev pub Below : (Text → ℕ) → ℕ → Text → Type 0
  Below rank n arg = NamesFile arg → rank (drop 1 arg) < n

  -- Argument files name argument files of lower rank.
  abbrev pub IsRanked : (Text → ℕ) → Type 0
  IsRanked rank =
      (file : Text)
      → fs.is_regular_file file ≡ some true
      → All (Below rank (rank file)) (read_args (fs.contents file))

  module _ (nested : List Text → Parser → Result Stop Parser) where
    candidate-Finishes : (file : Text) (p : Parser) → Finishes (check_input_file_candidate file p)
    unfolding check_input_file_candidate
    candidate-Finishes file p = ground arith

    step-Finishes :
        (k : Kind) (arg : Text) (last : Bool) (p : Parser)
        → (k ≡ Kind.args_file
            → fs.is_regular_file (drop 1 arg) ≡ some true
            → Finishes (nested (read_args (fs.contents (drop 1 arg))) p))
        → Finishes (option_step fs nested k arg last p)
    unfolding option_step
    step-Finishes Kind.falls_back arg last p h = tt
    step-Finishes Kind.args_file arg last p h =
        elim (check_cases (fs.is_regular_file (drop 1 arg))) [
          | inl e ↦ rw (e, option_step) (Finishes->>= _ _ (h refl e) (λ _. tt))
          | inr (inl e) ↦ rw (e, option_step) tt
          | inr (inr e) ↦ rw (e, option_step) tt
        ]
    step-Finishes Kind.throws arg last p h = tt
    step-Finishes Kind.output arg last p h = ground arith
    step-Finishes Kind.output_joined arg last p h = tt
    step-Finishes Kind.mode arg last p h = ground arith
    step-Finishes Kind.language_option arg last p h = ground arith
    step-Finishes Kind.target_option arg last p h = ground arith
    step-Finishes Kind.target_joined arg last p h = tt
    step-Finishes Kind.value_option arg last p h = ground arith
    step-Finishes Kind.regular_file arg last p h =
        Finishes->>= _ _ (candidate-Finishes arg p) (λ _. tt)
    step-Finishes Kind.other arg last p h = tt

    loop-Finishes :
        (args : List Text) (pending : Option Pending) (p : Parser)
        → All
            (λ arg.
              NamesFile arg
              → (q : Parser) → Finishes (nested (read_args (fs.contents (drop 1 arg))) q))
            args
        → Finishes (parse_loop fs nested args pending p)
    unfolding parse_loop
    loop-Finishes [] pending p h = tt
    loop-Finishes (value ∷ rest) (some q) p h = loop-Finishes rest none _ h.1
    loop-Finishes (arg ∷ rest) none p h =
        Finishes->>= _ _ (step-Finishes (kind fs arg) arg _ p (λ e f. h.0 (e, f) p))
          λ r. loop-Finishes rest r.0 r.1 h.1

  All-map {ℓ κ} :
      (P : Text → Type ℓ) (Q : Text → Type κ) (xs : List Text)
      → ((x : Text) → P x → Q x)
      → All P xs
      → All Q xs
  All-map P Q [] f h = tt
  All-map P Q (x ∷ xs) f h = (f x h.0, All-map P Q xs f h.1)

  parse_args-Finishes :
      (rank : Text → ℕ)
      → IsRanked rank
      → (fuel : ℕ) (args : List Text) (p : Parser) → All (Below rank fuel) args
      → Finishes (parse_args fs fuel args p)
  unfolding parse_args
  parse_args-Finishes rank ranked zero args p h =
      loop-Finishes (λ _ _. err Stop.out_of_fuel) args none p
        (All-map (Below rank zero) _ args (λ arg b named q. absurd (omega (arith, b named))) h)
  parse_args-Finishes rank ranked (suc fuel) args p h =
      loop-Finishes (parse_args fs fuel) args none p (
        All-map (Below rank (suc fuel)) _ args
          (λ arg b named q. parse_args-Finishes rank ranked fuel _ q (
            All-map (Below rank (rank (drop 1 arg))) (Below rank fuel) _
              (λ w c n. omega (arith, c n, b named)) (ranked (drop 1 arg) named.1)))
          h)

  conclude-Finishes : (p : Parser) → Finishes (conclude p)
  unfolding conclude check_job with_language
  conclude-Finishes p = ground arith

  Finishes-ne {ℓ} : {A : Type ℓ} (m : Result Stop A) → Finishes m → m ≢ err Stop.out_of_fuel
  Finishes-ne m h e = subst Finishes e h

  -- If argument files name argument files of lower rank only, then with a bound above the ranks of
  -- the files that the command line names, the parse ends within the bound.
  pub parse-ne-out_of_fuel :
      (rank : Text → ℕ) (fuel : ℕ) (args : List Text)
      → IsRanked rank
      → All (Below rank fuel) args
      → parse fs fuel args ≢ err Stop.out_of_fuel
  unfolding parse
  parse-ne-out_of_fuel rank fuel args ranked h = Finishes-ne _ (
      Finishes->>= _ _ (parse_args-Finishes rank ranked fuel args empty_parser h) conclude-Finishes)

  kind_of_file :
      (file : Text) → forbidden (b'@' ∷ file) ≡ false → kind fs (b'@' ∷ file) ≡ Kind.args_file
  unfolding kind starts_with
  kind_of_file file plain = rw plain (ground (arith, starts_with_nil file))

  module _ (file : Text) (more : List Text) (plain : forbidden (b'@' ∷ file) ≡ false)
      (regular : fs.is_regular_file file ≡ some true)
      (self : read_args (fs.contents file) ≡ (b'@' ∷ file) ∷ more) where
    loop_self :
        (nested : List Text → Parser → Result Stop Parser) (rest : List Text) (p : Parser)
        → nested ((b'@' ∷ file) ∷ more) p ≡ err Stop.out_of_fuel
        → parse_loop fs nested ((b'@' ∷ file) ∷ rest) none p ≡ err Stop.out_of_fuel
    unfolding parse_loop option_step
    loop_self nested rest p e = rw (kind_of_file file plain, option_step, regular, self, e)

    parse_args_self :
        (fuel : ℕ) (rest : List Text) (p : Parser)
        → parse_args fs fuel ((b'@' ∷ file) ∷ rest) p ≡ err Stop.out_of_fuel
    unfolding parse_args
    parse_args_self zero rest p = loop_self (λ _ _. err Stop.out_of_fuel) rest p refl
    parse_args_self (suc fuel) rest p =
        loop_self (parse_args fs fuel) rest p (parse_args_self fuel more p)

    -- If a file's first argument names the file itself, and its name is not forbidden, then a
    -- command line that starts with this file runs out of every bound.
    pub parse_self :
        (fuel : ℕ) (rest : List Text) → parse fs fuel ((b'@' ∷ file) ∷ rest) ≡ err Stop.out_of_fuel
    unfolding parse
    parse_self fuel rest = rw (parse_args_self fuel rest empty_parser)
