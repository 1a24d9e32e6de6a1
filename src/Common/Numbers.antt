-- ===== src/Common/Numbers.antt =====
-- Products and remainders of natural numbers.
use Prim.Native.Nat.{ℕ, ◌*◌, ◌%◌, ◌≤◌, ◌<◌}
use mathlib.Core.Path.{◌≡◌}
use native.Mathlib.Omega.{arith}

pub le_mul : (a b : ℕ) → 0 < b → a ≤ a * b
le_mul a b h = grind arith

pub mul_le : (a b c : ℕ) → a ≤ b → a * c ≤ b * c
mul_le a b c h = grind arith

pub small_mod : (a n : ℕ) → a < n → a % n ≡ a
small_mod a n h = grind arith
