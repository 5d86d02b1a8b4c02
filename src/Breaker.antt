-- ===== src/Breaker.antt =====
-- breaker/breaker.go: the circuit breaker before a shared backend. An instant is a number of
-- nanoseconds since the Unix epoch; the zero `time.Time` is `zero_time`.
pub mod Invariant
pub mod Phases
pub mod Probe
mod Tests
use pace.Prelude.{ℕ, ◌+◌, ◌*◌, ◌-◌, ◌^◌, Bool, true, false, List, [], ◌∷◌, leb, if◌then◌else◌}
use pace.Prelude.Int.{ℤ, pos, negsuc, ltb_ℤ, eq_ℤ, ◌+ℤ◌}

-- January 1, year 1, 00:00:00 UTC: 62135596800 seconds before the epoch.
abbrev pub zero_time : ℤ
zero_time = negsuc (62135596800 * 10 ^ 9 - 1)

abbrev pub is_zero : ℤ → Bool
is_zero t = eq_ℤ t zero_time

abbrev pub threshold : ℕ
threshold = 5

abbrev pub cooldown : ℤ
cooldown = pos (5 * 10 ^ 9)

pub record Breaker : Type 0 where
  pub failures : ℕ
  pub open_till : ℤ
  pub probing : Bool

-- The zero value.
abbrev pub fresh : Breaker
fresh = record { failures = 0; open_till = zero_time; probing = false }

unfoldable pub allow : Breaker → ℤ → Breaker × Bool
allow b now =
    if is_zero b.open_till
    then (b, true)
    else if ltb_ℤ now b.open_till
    then (b, false)
    else if b.probing
    then (b, false)
    else (record b { probing = true }, true)

unfoldable pub succeeded : Breaker → Breaker
succeeded b = record { failures = 0; open_till = zero_time; probing = false }

unfoldable pub failed : Breaker → ℤ → Breaker
failed b now =
    if b.probing
    then record { failures = 0; open_till = now +ℤ cooldown; probing = false }
    else if leb threshold (b.failures + 1)
    then record b { failures = 0; open_till = now +ℤ cooldown }
    else record b { failures = b.failures + 1 }

unfoldable pub abandoned : Breaker → Breaker
abandoned b = record b { probing = false }

-- The calls that a guarded dependency makes, in the order in which they take the lock.
pub data Call : Type 0 where
  allows fails : ℤ → Call
  succeeds abandons : Call

unfoldable pub step : Breaker → Call → Breaker
step b (allows now) = (allow b now).0
step b (fails now) = failed b now
step b succeeds = succeeded b
step b abandons = abandoned b

unfoldable pub run : Breaker → List Call → Breaker
run b [] = b
run b (c ∷ cs) = run (step b c) cs
