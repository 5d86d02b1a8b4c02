-- ===== src/Breaker/Tests.antt =====
-- Runs of breaker/breaker.go at fixed inputs.
use pace.Prelude.{◌≡◌, ◌≢◌, refl, true, false, List, [], ◌∷◌, arith}
use pace.Prelude.Int.{pos, ◌+ℤ◌}
use pace.Breaker.{Breaker, Call, allows, fails, fresh, allow, failed, step, run, zero_time}
use pace.Breaker.Invariant.{fresh-IsValid}
use pace.Breaker.Phases.{phase, phase_run, admits, run-phase}
use pace.Breaker.Probe.{any_due, admitted, one_probe}

-- Five failures, a probe after the cooldown, and its failure.
abbrev outage : List Call
outage =
    fails (pos 1)
    ∷ fails (pos 2)
    ∷ fails (pos 3)
    ∷ fails (pos 4)
    ∷ fails (pos 5)
    ∷ allows (pos 6)
    ∷ allows (pos 5_000_000_005)
    ∷ fails (pos 5_000_000_009)
    ∷ []

abbrev open_breaker : Breaker
open_breaker = record { failures = 0; open_till = pos 100; probing = false }

abbrev probed_breaker : Breaker
probed_breaker = record { failures = 0; open_till = pos 100; probing = true }

open_breaker-open : open_breaker.open_till ≢ zero_time
open_breaker-open = ground arith

run-outage : (run fresh outage).open_till ≡ pos 10_000_000_009
unfolding run step failed allow ◌+ℤ◌
run-outage = refl

run-phase_example :
    (phase (run fresh outage) ≡ phase_run (phase fresh) outage)
    × ((allow (run fresh outage) (pos 7)).1 ≡ admits (phase_run (phase fresh) outage) (pos 7))
run-phase_example = run-phase fresh outage (pos 7) (omega arith) fresh-IsValid

one_probe_example : admitted open_breaker (pos 99 ∷ pos 100 ∷ pos 101 ∷ []) ≡ 1
unfolding any_due
one_probe_example = one_probe open_breaker (pos 99 ∷ pos 100 ∷ pos 101 ∷ []) open_breaker-open
