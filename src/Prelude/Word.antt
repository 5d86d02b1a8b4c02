-- ===== src/Prelude/Word.antt =====
-- Go's int64 as it wraps: counters by their bit patterns, and signed sums.
use Prim.Native.Nat.{ℕ, ◌+◌, ◌-◌, ◌%◌, ◌^◌, ◌<◌}
use mathlib.Core.Path.{◌≡◌}
use native.Mathlib.Omega.{arith}
use pace.Prelude.Tests.{ltb, if◌then◌else◌}
use pace.Prelude.Int.{ℤ, pos, negsuc}

-- c.Add(n) on an atomic.Int64, as a bit pattern.
unfoldable pub add_int64 : ℕ → ℕ → ℕ
add_int64 c n = (c + n) % 2 ^ 64

-- The number that a bit pattern below 2 ^ 64 stands for.
abbrev pub signed64 : ℕ → ℤ
signed64 w = if ltb w (2 ^ 63) then pos w else negsuc (2 ^ 64 - w - 1)

-- What an int64 operation makes of its true result.
unfoldable pub wrap64 : ℤ → ℤ
wrap64 (pos n) = signed64 (n % 2 ^ 64)
wrap64 (negsuc n) = signed64 (2 ^ 64 - 1 - n % 2 ^ 64)

pub wrap64-pos : (n : ℕ) → n < 2 ^ 63 → wrap64 (pos n) ≡ pos n
unfolding wrap64
wrap64-pos n h = ground arith
