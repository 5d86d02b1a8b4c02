-- ===== src/Limiter/Budget.antt =====
-- How many calls of Allow (limiter/ratelimit.go) a key gets through: what is counted, and what
-- golang.org/x/time/rate says of a token bucket.
pub mod Local
pub mod Runs
use pace.Prelude.{
  ℕ, ◌+◌, ◌*◌, ◌≤◌, ◌≡◌, ◌≢◌, Bool, true, false, ◌&&◌, Option, none, some, List, [], ◌∷◌,
  if◌then◌else◌,
}
use pace.Prelude.Int.{ℤ, pos, pos_part, ◌≤ℤ◌, ◌-ℤ◌}
use pace.Prelude.Bytes.{Bytes, bytes_eq}
use pace.Float.{Float64}
use pace.Bucket.{RateLib, Quota}
use pace.Limiter.Admission.{allow}
use pace.Limiter.Observer.Runs.{Call, allows, Tally, perform}

-- A limiter whose rate is not rate.Inf, the greatest float64, holds some credit at each instant, `unit`
-- of it for a token. It is full when it is new, gains at most `gain` of its rate in a nanosecond, and a
-- token is paid for. A limiter at rate.Inf grants without a charge, and nothing is asked of it.
pub record CreditLaws {fl : Float64} (rl : RateLib fl) : Type 0 where
  pub unit : ℕ
  pub gain : fl.F → ℕ
  pub held : rl.Limiter → ℤ → ℕ
  pub held-new : (r : fl.F) (b t : ℤ) → held (rl.new_limiter r b) t ≤ pos_part b * unit
  pub held_later :
      (l : rl.Limiter) (t u : ℤ)
      → rl.limit l ≢ fl.max_float
      → t ≤ℤ u
      → held l u ≤ held l t + gain (rl.limit l) * pos_part (u -ℤ t)
  pub held-allow :
      (l : rl.Limiter) (t : ℤ)
      → rl.limit l ≢ fl.max_float
      → held (rl.allow_n l t (pos 1)).0 t + (if (rl.allow_n l t (pos 1)).1 then unit else 0)
        ≤ held l t

module _ {fl : Float64} (rl : RateLib fl) (j : Bytes) where
  -- Whether a call is an Allow for key `j` that gets a token.
  abbrev pub granted : Tally rl → Call rl → ℕ
  granted t (allows key a) = if bytes_eq key j && (allow rl t.limiter key a).ok then 1 else 0
  granted t _ = 0

  abbrev pub grants : Tally rl → List (Call rl) → ℕ
  grants t [] = 0
  grants t (c ∷ cs) = granted t c + grants (perform rl t c) cs
