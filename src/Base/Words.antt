-- ===== src/Base/Words.antt =====
-- std::uint64_t and std::uint32_t arithmetic, with its wrap-around, and std::to_string.
use Prim.Native.Nat.{ℕ, zero, suc, ◌+◌, ◌-◌, ◌/◌, ◌%◌, ◌^◌, ◌<◌}
use mathlib.Core.Path.{◌≡◌}
use mathlib.Core.List.{[], ◌∷◌, ◌++◌}
use native.Mathlib.Omega.{arith}
use distplusplus.Base.Tests.{ltb, if◌then◌else◌}
use distplusplus.Base.Text.{Text}

unfoldable pub add64 : ℕ → ℕ → ℕ
add64 a b = (a + b) % 2 ^ 64

unfoldable pub sub64 : ℕ → ℕ → ℕ
sub64 a b = (a + 2 ^ 64 - b) % 2 ^ 64

pub add64_exact : (a b : ℕ) → a + b < 2 ^ 64 → add64 a b ≡ a + b
unfolding add64
add64_exact a b h = omega arith

pub sub64_exact : (a b : ℕ) → b < suc a → a < 2 ^ 64 → sub64 a b ≡ a - b
unfolding sub64
sub64_exact a b h k = omega arith

-- Decimal digits; twenty of them write every std::uint64_t.
unfoldable pub to_text_fuel : ℕ → ℕ → Text
to_text_fuel zero n = []
to_text_fuel (suc f) n =
    let rest = to_text_fuel f (n / 10) in
    if ltb n 10 then (n + b'0') ∷ [] else rest ++ ((n % 10 + b'0') ∷ [])

unfoldable pub to_text : ℕ → Text
unfolding to_text_fuel
to_text n = to_text_fuel 20 n
