-- ===== src/Breaker/Phases.antt =====
-- The three states that the comment of breaker/breaker.go describes, and that the fields of its
-- `Breaker` implement them.
use pace.Prelude.{ℕ, ◌+◌, ◌≡◌, refl, Bool, true, false, List, [], ◌∷◌, arith, leb, if◌then◌else◌}
use pace.Prelude.Int.{ℤ, ltb_ℤ, eq_ℤ_iff, ◌+ℤ◌}
use pace.Breaker.{
  Breaker, Call, allows, fails, succeeds, abandons, allow, failed, succeeded, abandoned, step, run,
  zero_time, is_zero, threshold, cooldown,
}
use pace.Breaker.Invariant.{IsValid, IsSane, AreSane, reopened, step-IsValid}

-- The number is the count of failures.
pub data Phase : Type 0 where
  closed : ℕ → Phase
  opened half_open : ℤ → ℕ → Phase

-- The state machine of the comment, with what a verdict does that arrives in another state than
-- the one in which its call was let through.
unfoldable pub count_failure : Phase → ℤ → ℕ → Phase
count_failure same now n = if leb threshold (n + 1) then opened (now +ℤ cooldown) 0 else same

unfoldable pub phase_step : Phase → Call → Phase
unfolding count_failure
phase_step (closed n) (allows now) = closed n
phase_step (opened till n) (allows now) = if ltb_ℤ now till then opened till n else half_open till n
phase_step (half_open till n) (allows now) = half_open till n
phase_step (closed n) (fails now) = count_failure (closed (n + 1)) now n
phase_step (opened till n) (fails now) = count_failure (opened till (n + 1)) now n
phase_step (half_open till n) (fails now) = opened (now +ℤ cooldown) 0
phase_step p succeeds = closed 0
phase_step (half_open till n) abandons = opened till n
phase_step p abandons = p

abbrev phase_of : Bool → Bool → ℤ → ℕ → Phase
phase_of true probing till n = closed n
phase_of false true till n = half_open till n
phase_of false false till n = opened till n

unfoldable pub phase : Breaker → Phase
phase b = phase_of (is_zero b.open_till) b.probing b.open_till b.failures

-- Whether a call at `now` gets through, in terms of the state.
unfoldable pub admits : Phase → ℤ → Bool
admits (closed n) now = true
admits (opened till n) now = if ltb_ℤ now till then false else true
admits (half_open till n) now = false

pub phase-step :
    (b : Breaker) (c : Call) → IsSane c → IsValid b → phase (step b c) ≡ phase_step (phase b) c
unfolding step allow failed succeeded abandoned phase phase_step count_failure
phase-step b (allows now) h v = ground (arith, eq_ℤ_iff b.open_till zero_time)
phase-step b (fails now) h v =
    ground
      (arith, eq_ℤ_iff b.open_till zero_time, eq_ℤ_iff (now +ℤ cooldown) zero_time, reopened now h)
phase-step b succeeds h v = ground arith
phase-step b abandons h v = ground (arith, eq_ℤ_iff b.open_till zero_time)

-- `Allow` answers by the state alone.
pub allow-admits : (b : Breaker) (now : ℤ) → (allow b now).1 ≡ admits (phase b) now
unfolding allow phase admits
allow-admits b now = ground arith

abbrev pub phase_run : Phase → List Call → Phase
phase_run p [] = p
phase_run p (c ∷ cs) = phase_run (phase_step p c) cs

-- Through any sequence of calls the fields follow the state machine, and `Allow` answers as it does.
pub run-phase :
    (b : Breaker) (cs : List Call) (now : ℤ)
    → AreSane cs
    → IsValid b
    → (phase (run b cs) ≡ phase_run (phase b) cs)
      × ((allow (run b cs) now).1 ≡ admits (phase_run (phase b) cs) now)
unfolding run
run-phase b [] now h v = (refl, allow-admits b now)
run-phase b (c ∷ cs) now h v =
    rw (← phase-step b c h.0 v) (run-phase (step b c) cs now h.1 (step-IsValid b c h.0 v))
