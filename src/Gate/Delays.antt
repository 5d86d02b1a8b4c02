-- ===== src/Gate/Delays.antt =====
-- The delays of gate/gate.go: what a refused caller waits.
use pace.Prelude.{ℕ, ◌+◌, ◌/◌, ◌^◌, ◌≤◌, ◌<◌, ◌≡◌, ◌⊎◌, arith}
use pace.Prelude.Int.{ℤ, pos, ◌≤ℤ◌, ◌<ℤ◌, ◌+ℤ◌}
use pace.Prelude.Word.{wrap64}
use pace.Float.{Float64}
use pace.Shared.{Grant}
use pace.Bucket.{RateLib}
use pace.Gate.Rounds.Polling.{Loop, sleep}
use pace.Gate.{poll_delay, fallback_delay, retry_delay, min_poll_delay, max_poll_delay}

-- The delay lies between `d` and one and a half times `d`, as long as that fits an int64.
pub poll_delay_bounds :
    (rand : ℕ → ℕ) (d : ℕ)
    → rand (d / 2 + 1) < d / 2 + 1
    → d + d / 2 < 2 ^ 63
    → (pos d ≤ℤ poll_delay rand (pos d)) × (poll_delay rand (pos d) ≤ℤ pos (d + d / 2))
unfolding poll_delay ◌+ℤ◌ wrap64
poll_delay_bounds rand d h fits = ground arith

overflows :
    (rand : ℕ → ℕ) (d : ℕ)
    → rand (d / 2 + 1) < d / 2 + 1
    → d < 2 ^ 63
    → 2 ^ 63 ≤ d + rand (d / 2 + 1)
    → poll_delay rand (pos d) <ℤ pos 0
unfolding poll_delay ◌+ℤ◌ wrap64
overflows rand d h fits over = ground arith

module _ {fl : Float64} (rl : RateLib fl) where
  unslept : (l : Loop rl) (d : ℤ) → d <ℤ pos 0 → sleep rl l d ≡ l
  unslept l d h = ground (arith, h)

  -- Where the sum does not fit, the delay is negative, and the loop of Acquire does not sleep for it.
  pub poll_delay_overflow :
      (rand : ℕ → ℕ) (d : ℕ) (l : Loop rl)
      → rand (d / 2 + 1) < d / 2 + 1
      → d < 2 ^ 63
      → 2 ^ 63 ≤ d + rand (d / 2 + 1)
      → (poll_delay rand (pos d) <ℤ pos 0) × (sleep rl l (poll_delay rand (pos d)) ≡ l)
  poll_delay_overflow rand d l h fits over =
      let negative = overflows rand d h fits over in (negative, unslept l _ negative)

module _ (fl : Float64) where
  pub fallback_delay_bounds :
      (rate : fl.F)
      → (min_poll_delay ≤ℤ fallback_delay fl rate) × (fallback_delay fl rate ≤ℤ max_poll_delay)
  unfolding fallback_delay
  fallback_delay_bounds rate = ground arith

  -- A refused caller is never told to come back at once: the delay is above zero, and it is what the
  -- backend asked for or lies between 10 milliseconds and 30 seconds.
  pub retry_delay_bounds :
      (g : Grant fl.F) (rate : fl.F)
      → (pos 0 <ℤ retry_delay fl g rate)
        × ((retry_delay fl g rate ≡ g.retry_after)
            ⊎ ((min_poll_delay ≤ℤ retry_delay fl g rate)
                × (retry_delay fl g rate ≤ℤ max_poll_delay)))
  unfolding retry_delay
  retry_delay_bounds g rate = ground (arith, fallback_delay_bounds rate)
