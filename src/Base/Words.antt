-- ===== src/Base/Words.antt =====
-- C's `unsigned int`: 32 bits, wrapping.
use Prim.Native.Nat.{ℕ, ◌+◌, ◌-◌, ◌%◌, ◌^◌, ◌≤◌, ◌<◌}
use mathlib.Core.Path.{◌≡◌}
use native.Mathlib.Omega.{arith}

abbrev pub u32_mod : ℕ
u32_mod = 2 ^ 32

abbrev pub add32 : ℕ → ℕ → ℕ
add32 a b = (a + b) % u32_mod

-- `-` on ℕ stops at 0, so the modulus is added first.
abbrev pub sub32 : ℕ → ℕ → ℕ
sub32 a b = (a + u32_mod - b) % u32_mod

pub sub32-eq : (a b : ℕ) → a < u32_mod → b ≤ a → sub32 a b ≡ a - b
sub32-eq a b ha h = omega arith

pub add32-eq : (a b : ℕ) → a + b < u32_mod → add32 a b ≡ a + b
add32-eq a b h = omega arith
