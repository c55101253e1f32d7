-- ===== src/Common/Arguments.antt =====
-- src/common/argsvec.hpp: Arg and ArgsVec. A string that an Arg shares is constant, so its value stands
-- for it. A `char *` is an address, and `Memory` has the bytes from an address on.
use distplusplus.Base.{
  All, ap, ℕ, true, false, ◌≡◌, refl, ◌↔◌, ◌==◌, List, [], ◌∷◌, ◌++◌, map, arith,
}
use distplusplus.Base.Text.{Text, has_char}

abbrev pub Memory : Type 0
Memory = ℕ → List ℕ

-- The member `data`.
pub data Arg : Type 0 where
  external : ℕ → Arg
  shared : Text → Arg

-- The constructor, for what a std::string is made of.
unfoldable pub new_arg : Text → Arg
new_arg s = Arg.shared s

unfoldable pub from_external : ℕ → Arg
from_external p = Arg.external p

-- The bytes before the first zero byte, as std::string and std::string_view read a C string.
unfoldable pub c_text : List ℕ → Text
c_text [] = []
c_text (c ∷ s) = elim (c == 0) [ true ↦ [] | false ↦ c ∷ c_text s ]

-- The operators std::string and std::string_view.
unfoldable pub to_string : Memory → Arg → Text
unfolding c_text
to_string memory (Arg.external p) = c_text (memory p)
to_string memory (Arg.shared s) = s

-- The bytes behind the pointer of `c_str`.
unfoldable pub c_str : Memory → Arg → List ℕ
c_str memory (Arg.external p) = memory p
c_str memory (Arg.shared s) = s ++ (0 ∷ [])

-- The constructor of ArgsVec from a list.
unfoldable pub new_args : List Text → List Arg
unfolding new_arg
new_args = map new_arg

-- The loop over `argv` in the client's `main`.
unfoldable pub args_of_argv : List ℕ → List Arg
unfolding from_external
args_of_argv = map from_external

-- The copy that ProcessHelper makes.
unfoldable pub raw_args : Memory → List Arg → List Text
unfolding to_string
raw_args memory = map (to_string memory)

pub c_text-append : (s t : Text) → has_char s 0 ≡ false → c_text (s ++ (0 ∷ t)) ≡ s
unfolding c_text has_char
c_text-append [] t h = refl
c_text-append (c ∷ s) t h = ground (arith, c_text-append s t)

has_char-c_text : (s : List ℕ) → has_char (c_text s) 0 ≡ false
unfolding c_text has_char
has_char-c_text [] = refl
has_char-c_text (c ∷ s) = ground (arith, has_char-c_text s)

-- A C string is the text of an argument exactly if the text has no zero byte.
pub c_text-c_str :
    (memory : Memory) (a : Arg)
    → (c_text (c_str memory a) ≡ to_string memory a) ↔ (has_char (to_string memory a) 0 ≡ false)
unfolding c_str to_string
c_text-c_str memory (Arg.external p) = (λ e. has_char-c_text (memory p), λ e. refl)
c_text-c_str memory (Arg.shared s) =
    (λ e. rw e at (has_char-c_text (s ++ (0 ∷ []))), λ e. c_text-append s [] e)

-- The texts that an ArgsVec is made from are those that ProcessHelper copies.
pub raw_args-new_args :
    (memory : Memory) (texts : List Text) → raw_args memory (new_args texts) ≡ texts
unfolding raw_args to_string new_args
raw_args-new_args memory [] = refl
raw_args-new_args memory (t ∷ texts) = ap (λ ts. t ∷ ts) (raw_args-new_args memory texts)

-- No argument of `main` has a zero byte.
pub raw_args-args_of_argv :
    (memory : Memory) (argv : List ℕ)
    → All (λ t. has_char t 0 ≡ false) (raw_args memory (args_of_argv argv))
unfolding raw_args to_string args_of_argv
raw_args-args_of_argv memory [] = tt
raw_args-args_of_argv memory (p ∷ argv) =
    (has_char-c_text (memory p), raw_args-args_of_argv memory argv)
