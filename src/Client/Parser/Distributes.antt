-- ===== src/Client/Parser/Distributes.antt =====
-- What a parse that allows distribution has found.
use distplusplus.Base.{
  check_cases, ℕ, Bool, true, false, not, ◌||◌, ◌&&◌, ◌≡◌, refl, ◌⊎◌, inl, inr, List, [], ◌∷◌, ◌++◌,
  Option, none, some, Result, ok, err, ◌>>=◌, arith, Bool-cases, drop, subst,
}
use distplusplus.Base.Text.{Text, codes, text_eq, is_empty, is_one_of}
use distplusplus.Base.FilePath.{filename, extension, stem}
use distplusplus.Common.Constants.{Language, input_file_extension}
use distplusplus.Client.Parser.{
  FileSystem, Stop, Parser, empty_parser, Kind, kind, Pending, take_value, option_step, parse_args,
  parse, conclude, with_language, check_job, named_output, check_input_file_candidate,
}
use distplusplus.Client.Parser.Rule.{Ensures, Ensures->>=, Keeps, parse_args-Ensures}

abbrev pub IsMode : Text → Type 0
IsMode arg = (text_eq arg (codes "-c") || text_eq arg (codes "-S")) ≡ true

-- The invariant: a parse that allows distribution has a mode, and an input file has an extension
-- from the table.
record Inv (p : Parser) : Type 0 where
  mode : p.can_distribute ≡ some true → IsMode p.mode_arg
  input : (is_empty p.infile ≡ true) ⊎ (is_one_of (extension p.infile) input_file_extension ≡ true)

abbrev J : Option Pending → Parser → Type 0
J q = Inv

kind-mode : (fs : FileSystem) (arg : Text) → kind fs arg ≡ Kind.mode → IsMode arg
unfolding kind
kind-mode fs arg h = ground arith

candidate-Inv : (file : Text) (p : Parser) → Inv p → Ensures Inv (check_input_file_candidate file p)
unfolding check_input_file_candidate
candidate-Inv file p v = elim (Bool-cases (is_one_of (extension file) input_file_extension)) [
  | inl e ↦ elim (Bool-cases (not (is_empty p.infile))) [
    | inl f ↦ rw (e, f) tt
    | inr f ↦ rw (e, f) (record { mode = v.mode; input = inr e })
  ]
  | inr e ↦ rw e (record { mode = v.mode; input = v.input })
]

going_on :
    (m : Result Stop Parser)
    → Ensures Inv m
    → Ensures (λ (r : Option Pending × Parser). J r.0 r.1) (m >>= λ p. ok (none, p))
going_on (ok p) v = v
going_on (err e) v = tt

module _ (fs : FileSystem) (nested : List Text → Parser → Result Stop Parser)
    (below : (args : List Text) (p : Parser) → Inv p → Ensures Inv (nested args p)) where
  by_kind :
      (k : Kind) (arg : Text) (last : Bool) (p : Parser)
      → kind fs arg ≡ k
      → Inv p
      → Ensures (λ r. J r.0 r.1) (option_step fs nested k arg last p)
  unfolding option_step
  by_kind Kind.falls_back arg last p e v = tt
  by_kind Kind.args_file arg last p e v = elim (check_cases (fs.is_regular_file (drop 1 arg))) [
    | inl f ↦ rw (f, option_step) (going_on _ (below _ p v))
    | inr (inl f) ↦ rw (f, option_step) tt
    | inr (inr f) ↦ rw (f, option_step) tt
  ]
  by_kind Kind.throws arg last p e v = tt
  by_kind Kind.output arg true p e v = tt
  by_kind Kind.output arg false p e v = elim (Bool-cases (not (is_empty p.outfile))) [
    | inl f ↦ rw f tt
    | inr f ↦ rw f v
  ]
  by_kind Kind.output_joined arg last p e v = record { mode = v.mode; input = v.input }
  by_kind Kind.mode arg last p e v =
      elim p.can_distribute
        as (λ c.
          Ensures (λ (r : Option Pending × Parser). J r.0 r.1)
            (elim c [
              | none ↦ ok (none, record p { mode_arg = arg; can_distribute = some true })
              | some b ↦ ok (none, record p { mode_arg = arg })
            ])) [
              | none ↦ record { mode = λ _. kind-mode fs arg e; input = v.input }
              | some b ↦ record { mode = λ _. kind-mode fs arg e; input = v.input }
            ]
  by_kind Kind.language_option arg true p e v = tt
  by_kind Kind.language_option arg false p e v = record { mode = v.mode; input = v.input }
  by_kind Kind.target_option arg true p e v = tt
  by_kind Kind.target_option arg false p e v = record { mode = v.mode; input = v.input }
  by_kind Kind.target_joined arg last p e v = record { mode = v.mode; input = v.input }
  by_kind Kind.value_option arg true p e v = tt
  by_kind Kind.value_option arg false p e v = record { mode = v.mode; input = v.input }
  by_kind Kind.regular_file arg last p e v = going_on _ (candidate-Inv arg p v)
  by_kind Kind.other arg last p e v = record { mode = v.mode; input = v.input }

value-Inv : (q : Pending) (value : Text) (p : Parser) → Inv p → Inv (take_value q value p)
unfolding take_value
value-Inv Pending.to_outfile value p v = record { mode = v.mode; input = v.input }
value-Inv Pending.to_language value p v = ground (arith, v.mode)
value-Inv Pending.to_target value p v = record { mode = v.mode; input = v.input }
value-Inv Pending.to_args value p v = record { mode = v.mode; input = v.input }

keeps : (fs : FileSystem) → Keeps fs J
keeps fs = record {
  at_option = λ nested below arg last p v. by_kind fs nested below (kind fs arg) arg last p refl v;
  at_value = value-Inv;
}

-- What the client needs for a job: a mode, an input file that is no configure test, an output file
-- and a language.
pub record IsJob (p : Parser) : Type 0 where
  pub allowed : p.can_distribute ≡ some true
  pub mode : IsMode p.mode_arg
  pub has_input : is_empty p.infile ≡ false
  pub known_extension : is_one_of (extension p.infile) input_file_extension ≡ true
  pub no_conftest : text_eq (filename p.infile) (codes "conftest.c") ≡ false
  pub has_output : is_empty p.outfile ≡ false
  pub has_language : (p.language ≡ Language.c) ⊎ (p.language ≡ Language.cxx)

abbrev Done : Parser → Type 0
Done p = (p.can_distribute ≡ some false) ⊎ IsJob p

object_name : (s : Text) → is_empty (s ++ codes ".o") ≡ false
unfolding is_empty
object_name [] = refl
object_name (c ∷ s) = refl

with_language-Done :
    (l : Language) (p : Parser)
    → p.language ≡ l
    → p.can_distribute ≡ some true
    → Inv p
    → is_empty p.infile ≡ false
    → text_eq (filename p.infile) (codes "conftest.c") ≡ false
    → is_empty p.outfile ≡ false
    → Ensures Done (with_language l p)
unfolding with_language
with_language-Done Language.none p e c v i n o = tt
with_language-Done Language.c p e c v i n o = inr (record {
  allowed = c;
  mode = v.mode c;
  has_input = i;
  known_extension = ground (arith, v.input);
  no_conftest = n;
  has_output = o;
  has_language = inl e;
})
with_language-Done Language.cxx p e c v i n o = inr (record {
  allowed = c;
  mode = v.mode c;
  has_input = i;
  known_extension = ground (arith, v.input);
  no_conftest = n;
  has_output = o;
  has_language = inr e;
})

has_object : (p : Parser) → is_empty (named_output p) ≡ false
has_object p = elim (Bool-cases (is_empty p.outfile)) [
  | inl e ↦ rw e (object_name (stem p.infile))
  | inr e ↦ rw e e
]

check_job-Done :
    (c : Option Bool) (p : Parser)
    → p.can_distribute ≡ c
    → Inv p
    → (is_empty p.infile ≡ false → text_eq (filename p.infile) (codes "conftest.c") ≡ false)
    → Ensures Done (check_job c p)
unfolding check_job
check_job-Done none p e v n = inl refl
check_job-Done (some false) p e v n = inl e
check_job-Done (some true) p e v n = elim (Bool-cases (is_empty p.infile)) [
  | inl i ↦ rw i tt
  | inr i ↦ rw i (
      with_language-Done p.language (record p { outfile = named_output p }) refl e
        (record { mode = v.mode; input = v.input }) i (n i) (has_object p))
]

conclude-Done : (p : Parser) → Inv p → Ensures Done (conclude p)
unfolding conclude
conclude-Done p v =
    elim (Bool-cases
      (not (is_empty p.infile) && text_eq (filename p.infile) (codes "conftest.c"))) [
        | inl e ↦ rw e (inl refl)
        | inr e ↦ rw e (check_job-Done p.can_distribute p refl v (λ i. rw i at e))
      ]

Ensures-ok :
    (P : Parser → Type 0) (m : Result Stop Parser) {p : Parser} → Ensures P m → m ≡ ok p → P p
Ensures-ok P m h e = subst (Ensures P) e h

-- A parse that succeeds either excludes distribution or has found all that a job needs: a mode, an
-- input file with a known extension that is not conftest.c, an output file and a language.
pub parse-IsJob :
    (fs : FileSystem) (fuel : ℕ) (args : List Text) (p : Parser)
    → parse fs fuel args ≡ ok p
    → (p.can_distribute ≡ some false) ⊎ IsJob p
unfolding parse is_empty
parse-IsJob fs fuel args p h =
    Ensures-ok Done _
      (Ensures->>= Inv Done (parse_args fs fuel args empty_parser) conclude
        (parse_args-Ensures fs J (keeps fs) fuel args empty_parser
          (record { mode = λ e. cc; input = inl refl }))
        conclude-Done)
      h
