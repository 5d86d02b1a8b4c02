-- ===== src/Breaker/Invariant.antt =====
-- The states of breaker/breaker.go that calls can reach.
use mathlib.Core.Bool.{false≢true}
use pace.Prelude.{◌<◌, ◌≡◌, ◌≢◌, true, List, [], ◌∷◌, arith}
use pace.Prelude.Int.{ℤ, ◌+ℤ◌, ◌≤ℤ◌}
use pace.Breaker.{
  Breaker, Call, allows, fails, succeeds, abandons, fresh, allow, failed, succeeded, abandoned,
  step, run, zero_time, threshold, cooldown,
}

-- The failure count stays under the threshold, so it does not overflow, and a probe is out only
-- while the breaker is not closed.
pub record IsValid (b : Breaker) : Type 0 where
  pub bounded : b.failures < threshold
  pub guarded : b.probing ≡ true → b.open_till ≢ zero_time

-- A clock that reads no instant before year 1.
abbrev pub IsSane : Call → Type 0
IsSane (fails now) = zero_time ≤ℤ now
IsSane _ = Unit

abbrev pub AreSane : List Call → Type 0
AreSane [] = Unit
AreSane (c ∷ cs) = IsSane c × AreSane cs

pub fresh-IsValid : IsValid fresh
fresh-IsValid = record { bounded = omega arith; guarded = λ p. absurd (false≢true p) }

pub reopened : (now : ℤ) → zero_time ≤ℤ now → now +ℤ cooldown ≢ zero_time
unfolding ◌+ℤ◌
reopened now h = ground arith

pub step-IsValid : (b : Breaker) (c : Call) → IsSane c → IsValid b → IsValid (step b c)
unfolding step allow failed succeeded abandoned
step-IsValid b (allows now) h v = ground arith
step-IsValid b (fails now) h v = ground (arith, reopened now h)
step-IsValid b succeeds h v = ground arith
step-IsValid b abandons h v = ground arith

-- Whatever calls a fresh breaker meets, in any order, fewer failures are on record than open it,
-- and a probe is out only while it is not closed.
pub run-IsValid : (b : Breaker) (cs : List Call) → AreSane cs → IsValid b → IsValid (run b cs)
unfolding run
run-IsValid b [] h v = v
run-IsValid b (c ∷ cs) h v = run-IsValid (step b c) cs h.1 (step-IsValid b c h.0 v)
