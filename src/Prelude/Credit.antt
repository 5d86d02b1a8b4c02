-- ===== src/Prelude/Credit.antt =====
-- Credit that is gained with time and spent one token after another.
use Prim.Native.Nat.{ℕ, ◌+◌, ◌*◌, ◌≤◌}
use mathlib.Core.Path.{◌≡◌}
use mathlib.Core.Bool.{Bool, true, false}
use native.Mathlib.Omega.{arith}
use pace.Prelude.Tests.{if◌then◌else◌}
use pace.Prelude.Int.{ℤ, pos_part, neg_part, ◌≤ℤ◌, ◌-ℤ◌}

since : (t u : ℤ) → t ≤ℤ u → pos_part (u -ℤ t) + pos_part t + neg_part u ≡ pos_part u + neg_part t
unfolding ◌-ℤ◌
since t u h = ground arith

pub elapsed :
    (g : ℕ) (t u v : ℤ)
    → t ≤ℤ u
    → u ≤ℤ v
    → g * pos_part (u -ℤ t) + g * pos_part (v -ℤ u) ≡ g * pos_part (v -ℤ t)
elapsed g t u v h k =
    let sum : pos_part (u -ℤ t) + pos_part (v -ℤ u) ≡ pos_part (v -ℤ t) =
      omega (arith, since t u h, since u v k, since t v (omega (arith, h, k))) in
    grind (arith, sum)

pub token : (ok : Bool) (u : ℕ) → (if ok then 1 else 0) * u ≡ (if ok then u else 0)
token true u = omega arith
token false u = omega arith

pub add_other : (a b u m : ℕ) → a ≡ 0 → b * u ≤ m → (a + b) * u ≤ m
add_other a b u m h k = rw h (omega (arith, k))

pub add_own :
    (a b u price rest n x y z : ℕ)
    → a * u ≡ price
    → rest + price ≤ n + x
    → b * u ≤ rest + y
    → x + y ≡ z
    → (a + b) * u ≤ n + z
add_own a b u price rest n x y z h k m e =
    let split : (a + b) * u ≡ a * u + b * u = grind arith in omega (arith, split)
