-- ===== src/Prelude/Words.antt =====
-- Arithmetic of `usize` (64 bits) and `u32` in a release build, where it wraps around.
use Prim.Native.Nat.{ℕ, ◌+◌, ◌-◌, ◌*◌, ◌%◌, ◌^◌, ◌≤◌, ◌<◌}
use mathlib.Core.Path.{◌≡◌}
use native.Mathlib.Omega.{arith}

abbrev pub max64 : ℕ
max64 = 2 ^ 64

abbrev pub max32 : ℕ
max32 = 2 ^ 32

abbrev pub add64 : ℕ → ℕ → ℕ
add64 a b = (a + b) % max64

abbrev pub sub64 : ℕ → ℕ → ℕ
sub64 a b = (a + max64 - b) % max64

abbrev pub mul64 : ℕ → ℕ → ℕ
mul64 a b = a * b % max64

abbrev pub add32 : ℕ → ℕ → ℕ
add32 a b = (a + b) % max32

abbrev pub sub32 : ℕ → ℕ → ℕ
sub32 a b = (a + max32 - b) % max32

-- `as u32`
abbrev pub to_u32 : ℕ → ℕ
to_u32 a = a % max32

pub sub64-eq-sub : (a b : ℕ) → a < max64 → b ≤ a → sub64 a b ≡ a - b
sub64-eq-sub a b h k = omega arith

pub sub32-eq-sub : (a b : ℕ) → a < max32 → b ≤ a → sub32 a b ≡ a - b
sub32-eq-sub a b h k = omega arith
