-- ===== src/Breaker/Probe.antt =====
-- Who gets through a breaker of breaker/breaker.go: failures that open it, and the probe.
use pace.Prelude.{
  ℕ, ◌+◌, ◌<◌, ◌≡◌, ◌≢◌, refl, Bool, true, false, List, [], ◌∷◌, arith, length, if◌then◌else◌,
}
use pace.Prelude.Int.{ℤ, ltb_ℤ, ◌≤ℤ◌, eq_ℤ_iff, ◌+ℤ◌}
use pace.Breaker.{Breaker, allow, failed, abandoned, zero_time, threshold, cooldown}

-- How many of these `Allow` calls get through, no verdict arriving in between.
unfoldable pub admitted : Breaker → List ℤ → ℕ
admitted b [] = 0
admitted b (now ∷ nows) = (if (allow b now).1 then 1 else 0) + admitted (allow b now).0 nows

-- Whether one of the calls comes at or after the end of the cooldown.
unfoldable pub any_due : ℤ → List ℤ → Bool
any_due till [] = false
any_due till (now ∷ nows) = if ltb_ℤ now till then any_due till nows else true

probing-admitted :
    (b : Breaker) (nows : List ℤ) → b.open_till ≢ zero_time → b.probing ≡ true → admitted b nows ≡ 0
unfolding admitted allow
probing-admitted b [] h p = refl
probing-admitted b (now ∷ nows) h p =
    ground (arith, eq_ℤ_iff b.open_till zero_time, probing-admitted b nows h p)

-- However many callers ask one after the other while the breaker is not closed, with no verdict and
-- no withdrawal of a call in between, exactly one gets through if one of them asks when the cooldown
-- is over and no probe is out, and none otherwise.
pub one_probe :
    (b : Breaker) (nows : List ℤ)
    → b.open_till ≢ zero_time
    → admitted b nows ≡ (if b.probing then 0 else if any_due b.open_till nows then 1 else 0)
unfolding admitted any_due allow
one_probe b [] h = ground arith
one_probe b (now ∷ nows) h = ground (
  arith,
  eq_ℤ_iff b.open_till zero_time,
  one_probe b nows h,
  probing-admitted (record b { probing = true }) nows h refl,
)

-- The failures reported one after the other.
unfoldable pub fail_all : Breaker → List ℤ → Breaker
fail_all b [] = b
fail_all b (now ∷ nows) = fail_all (failed b now) nows

few_failures :
    (b : Breaker) (nows : List ℤ)
    → b.probing ≡ false
    → b.failures + length nows < threshold
    → fail_all b nows ≡ record b { failures = b.failures + length nows }
unfolding fail_all failed
few_failures b [] p h = ground arith
few_failures b (now ∷ nows) p h =
    ground (arith, few_failures (record b { failures = b.failures + 1 }) nows)

-- A closed breaker that has counted `b.failures` opens on the failure that makes it `threshold`, for
-- `cooldown` from the instant of that failure, and not before.
pub threshold_opens :
    (b : Breaker) (nows : List ℤ) (last : ℤ)
    → b.probing ≡ false
    → b.failures + length nows + 1 ≡ threshold
    → (fail_all b nows ≡ record b { failures = b.failures + length nows })
      × (failed (fail_all b nows) last ≡ record b { failures = 0; open_till = last +ℤ cooldown })
unfolding failed
threshold_opens b nows last p h =
    let few = few_failures b nows p (omega arith) in (few, rw few (ground arith))

-- A verdict says nothing of which call it is about: while a probe is out, the withdrawal of a call
-- that was let through earlier frees the probe, and a second probe gets through beside the first.
second_probe :
    (b : Breaker) (now : ℤ)
    → b.open_till ≢ zero_time
    → b.open_till ≤ℤ now
    → b.probing ≡ true
    → ((allow b now).1 ≡ false) × ((allow (abandoned b) now).1 ≡ true)
unfolding allow abandoned
second_probe b now h due p = ground (arith, eq_ℤ_iff b.open_till zero_time)
