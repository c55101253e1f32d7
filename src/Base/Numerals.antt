-- ===== src/Base/Numerals.antt =====
-- strtoull, strtoll and atoll of the C library, base 10. A signed result is its 64-bit pattern.
pub mod Digits
use Prim.Native.Nat.{ℕ, zero, suc, ◌+◌, ◌-◌, ◌*◌, ◌%◌, ◌^◌}
use mathlib.Core.Bool.{Bool, true, false, ◌&&◌, ◌||◌}
use mathlib.Core.List.{[], ◌∷◌}
use distplusplus.Base.Tests.{◌==◌, leb, ltb, if◌then◌else◌}
use distplusplus.Base.Text.{Text}

-- `isspace`.
unfoldable pub is_space : ℕ → Bool
is_space c = c == b' ' || (leb 9 c && leb c 13)

unfoldable pub is_digit : ℕ → Bool
is_digit c = leb b'0' c && leb c b'9'

unfoldable pub skip_spaces : Text → Text
unfolding is_space
skip_spaces [] = []
skip_spaces (c ∷ s) = let rest = skip_spaces s in if is_space c then rest else c ∷ s

-- The value of the digits in front, behind those that make `n`.
unfoldable pub digits : ℕ → Text → ℕ
unfolding is_digit
digits n [] = n
digits n (c ∷ s) = elim (is_digit c) [ true ↦ digits (n * 10 + (c - b'0')) s | false ↦ n ]

-- Whether there is a minus sign, and the value behind it.
unfoldable pub signed : Text → Bool × ℕ
unfolding digits
signed [] = (false, 0)
signed (c ∷ s) =
    if c == b'-'
    then (true, digits 0 s)
    else if c == b'+'
    then (false, digits 0 s)
    else (false, digits 0 (c ∷ s))

-- The value and errno, which is 0 or ERANGE.
unfoldable pub strtoull : Text → ℕ × ℕ
unfolding skip_spaces signed
strtoull s =
    let (minus, n) = signed (skip_spaces s) in
    if leb (2 ^ 64) n
    then (2 ^ 64 - 1, 34)
    else if minus
    then ((2 ^ 64 - n) % 2 ^ 64, 0)
    else (n, 0)

unfoldable pub strtoll : Text → ℕ × ℕ
unfolding skip_spaces signed
strtoll s =
    let (minus, n) = signed (skip_spaces s) in
    if minus
    then (if ltb (2 ^ 63) n then (2 ^ 63, 34) else ((2 ^ 64 - n) % 2 ^ 64, 0))
    else if leb (2 ^ 63) n
    then (2 ^ 63 - 1, 34)
    else (n, 0)

unfoldable pub atoll : Text → ℕ
unfolding strtoll
atoll s = (strtoll s).0
