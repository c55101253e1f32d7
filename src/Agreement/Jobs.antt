-- ===== src/Agreement/Jobs.antt =====
-- The job that `func` sends, before the server's parser.
use distplusplus.Base.{
  ℕ, Bool, true, false, not, ◌&&◌, ◌≡◌, refl, sym, ◌∙◌, inl, inr, List, [], ◌∷◌, ◌++◌, Option, none,
  some, Result, ok, err, Bool-cases, subst,
}
use distplusplus.Base.Text.{Text, codes, text_eq, is_empty}
use distplusplus.Base.FilePath.{filename}
use distplusplus.Common.Constants.{Language}
use distplusplus.Server.Parser.{not_a_compile, parse as server_parse}
use distplusplus.Server.Parser.Filters.{done, kept, Filters-append, has_compile, has_compile-append}
use distplusplus.Server.Parser.Outcomes.{parse_accepts, parse_no_compile}
use distplusplus.Client.Parser.{
  parse as client_parse, FileSystem, Stop, Parser, empty_parser, parse_args, conclude, check_job,
  with_language, named_output,
}
use distplusplus.Client.Parser.Rule.{Ensures, Ensures->>=}
use distplusplus.Client.Command.{CompilerType, map_compiler, target_args, common_args, job_args}
use distplusplus.Agreement.Tables.{IsQuiet, options_IsQuiet, compile_IsPlain}
use distplusplus.Agreement.{Filtered, Filtered-append, Filtered-two, Filtered-nil}
use distplusplus.Agreement.Invariant.{Open, parse_args-Filtered}

-- What the checks behind the loop leave alone.
abbrev Same : Parser → Parser → Type 0
Same p q =
    (q.args ≡ p.args)
    × (q.target ≡ p.target)
    × (q.can_distribute ≡ some true → p.can_distribute ≡ some true)

with_language-Same : (l : Language) (p : Parser) → Ensures (Same p) (with_language l p)
unfolding with_language
with_language-Same Language.none p = tt
with_language-Same Language.c p = (refl, refl, λ e. e)
with_language-Same Language.cxx p = (refl, refl, λ e. e)

check_job-Same : (c : Option Bool) (p : Parser) → Ensures (Same p) (check_job c p)
unfolding check_job
check_job-Same none p = (refl, refl, λ e. cc)
check_job-Same (some false) p = (refl, refl, λ e. e)
check_job-Same (some true) p = elim (Bool-cases (is_empty p.infile)) [
  | inl e ↦ rw e tt
  | inr e ↦ rw e (with_language-Same p.language (record p { outfile = named_output p }))
]

conclude-Same : (p : Parser) → Ensures (Same p) (conclude p)
unfolding conclude
conclude-Same p =
    elim (Bool-cases
      (not (is_empty p.infile) && text_eq (filename p.infile) (codes "conftest.c"))) [
        | inl e ↦ rw e (refl, refl, λ f. cc)
        | inr e ↦ rw e (check_job-Same p.can_distribute p)
      ]

-- A parse that allows distribution, and was given no target.
abbrev Ready : Parser → Type 0
Ready p = p.can_distribute ≡ some true → p.target ≡ none → Filtered p.args

parse-Ready :
    (fs : FileSystem) (fuel : ℕ) (args : List Text) → Ensures Ready (client_parse fs fuel args)
unfolding client_parse
parse-Ready fs fuel args =
    Ensures->>= (λ p. Open p → Filtered p.args) Ready (parse_args fs fuel args empty_parser)
      conclude (parse_args-Filtered fs fuel args) λ p f. ready p f (conclude p) (conclude-Same p)
  where
    ready :
        (p : Parser)
        → (Open p → Filtered p.args)
        → (m : Result Stop Parser) → Ensures (Same p) m
        → Ensures Ready m
    ready p f (ok q) s = λ c t. rw s.0 (f (sym s.1 ∙ t, λ e. cc (s.2 c)))
    ready p f (err e) s = tt

target_args-Filtered :
    (build_target : Text) (c : CompilerType) (t : Option Text)
    → IsQuiet build_target
    → Filtered (target_args build_target c t)
unfolding target_args
target_args-Filtered build_target CompilerType.clang none q =
    Filtered-two (codes "-target") build_target options_IsQuiet.1.0 q
target_args-Filtered build_target CompilerType.clang (some t) q = Filtered-nil
target_args-Filtered build_target CompilerType.gcc t q = Filtered-nil
target_args-Filtered build_target CompilerType.unknown t q = Filtered-nil

module _ (fs : FileSystem) (fuel : ℕ) (args : List Text) (build_target name : Text)
    (p : Parser) where
  common_args-Filtered :
      client_parse fs fuel args ≡ ok p
      → p.can_distribute ≡ some true
      → p.target ≡ none
      → IsQuiet build_target
      → Filtered (common_args build_target name p)
  unfolding common_args
  common_args-Filtered h c t q =
      Filtered-append p.args _ (subst (Ensures Ready) h (parse-Ready fs fuel args) c t)
        (target_args-Filtered build_target (map_compiler name) p.target q)

  -- Where the client's parse succeeds and allows distribution, with mode `-c` and no target given,
  -- and the build's target means nothing to the server's parser, the server's parser accepts the
  -- job's arguments.
  pub parse-job_args :
      client_parse fs fuel args ≡ ok p
      → p.can_distribute ≡ some true
      → p.target ≡ none
      → IsQuiet build_target
      → p.mode_arg ≡ codes "-c"
      → (out : List Text) × (server_parse (job_args build_target name p) ≡ ok out)
  unfolding job_args has_compile text_eq
  parse-job_args h c t q mode =
      let (out, f, e) = common_args-Filtered h c t q in
      (
        out ++ (codes "-c" ∷ []),
        rw mode (
            parse_accepts (Filters-append f (kept compile_IsPlain done))
              (has_compile-append out (codes "-c" ∷ []) ∙ rw e)),
      )

  -- Where the client's parse succeeds and allows distribution, with mode `-S` and no target given,
  -- and the build's target means nothing to the server's parser, the server's parser refuses the
  -- job's arguments for want of a `-c`.
  pub parse-job_args_assembly :
      client_parse fs fuel args ≡ ok p
      → p.can_distribute ≡ some true
      → p.target ≡ none
      → IsQuiet build_target
      → p.mode_arg ≡ codes "-S"
      → server_parse (job_args build_target name p) ≡ err not_a_compile
  unfolding job_args has_compile text_eq
  parse-job_args_assembly h c t q mode =
      let (out, f, e) = common_args-Filtered h c t q in
      rw mode (
        parse_no_compile (Filters-append f (kept options_IsQuiet.1.1.0.plain done))
          (has_compile-append out (codes "-S" ∷ []) ∙ rw e))
