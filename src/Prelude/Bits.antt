-- ===== src/Prelude/Bits.antt =====
-- A bitwise "and" is at most its second operand.
use Prim.Native.Nat.{ℕ, zero, suc, ◌/◌, ◌≤◌, min, bit_and, digits, bit_and-bitwise}
use native.Mathlib.Omega.{arith}

digits-le : (fuel a b : ℕ) → digits (λ b. zero) min fuel a b ≤ b
digits-le zero a b = omega arith
digits-le (suc fuel) zero b = omega arith
digits-le (suc fuel) (suc a) b = omega (arith, digits-le fuel (suc a / 2) (b / 2))

pub bit_and-le : (a b : ℕ) → bit_and a b ≤ b
bit_and-le zero b = omega (arith, bit_and-bitwise zero b)
bit_and-le (suc a) b = omega (arith, bit_and-bitwise (suc a) b, digits-le a (suc a / 2) (b / 2))
