-- ===== src/Base/Words.antt =====
-- Unsigned 32-bit machine words as native numbers, with the wrap-around written out.
use Prim.Native.Nat.{ℕ, ◌+◌, ◌-◌, ◌%◌, ◌≤◌, ◌<◌}
use mathlib.Core.Path.{◌≡◌}
use native.Mathlib.Omega.{arith}

-- The number of values of an `unsigned`.
abbrev pub u32_size : ℕ
u32_size = 4294967296

abbrev pub add32 : ℕ → ℕ → ℕ
add32 a b = (a + b) % 4294967296

abbrev pub sub32 : ℕ → ℕ → ℕ
sub32 a b = (a + 4294967296 - b) % 4294967296

abbrev pub IsU32 : ℕ → Type 0
IsU32 n = n < 4294967296

pub add32_small : (a b : ℕ) → a + b < 4294967296 → add32 a b ≡ a + b
add32_small a b h = omega arith

pub sub32_small : (a b : ℕ) → b ≤ a → a < 4294967296 → sub32 a b ≡ a - b
sub32_small a b h k = omega arith
