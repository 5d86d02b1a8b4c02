-- ===== src/Limiter/Budget/Runs/Bound.antt =====
-- The bound that a limiter without a shared backend puts on the calls of one key.
use pace.Prelude.{◌≢◌, List, [], ◌∷◌}
use pace.Prelude.Int.{ℤ, ◌≤ℤ◌}
use pace.Prelude.Bytes.{Bytes}
use pace.Float.{Float64}
use pace.Bucket.{RateLib, Bucket, Quota, usable_rate}
use pace.Bucket.Coherence.{RateLaws}
use pace.Registry.{lookup}
use pace.Limiter.Admission.{Around}
use pace.Limiter.Observer.Runs.{Call, allows, Tally, perform}
use pace.Limiter.Isolation.Keys.Runs.{Elsewhere}
use pace.Limiter.Budget.{CreditLaws}
use pace.Limiter.Budget.Runs.{rate, Serves}

-- An Allow for the key, or a call for another.
pub data Event {fl : Float64} (rl : RateLib fl) : Type 0 where
  own : Around rl → Event rl
  other : Call rl → Event rl

module _ {fl : Float64} {rl : RateLib fl} (j : Bytes) where
  abbrev pub call_of : Event rl → Call rl
  call_of (own a) = allows j a
  call_of (other c) = c

  -- The instant of the last call for the key.
  abbrev pub last : ℤ → List (Event rl) → ℤ
  last t [] = t
  last t (own a ∷ es) = last a.now es
  last t (other c ∷ es) = last t es

module _ {fl : Float64} {rl : RateLib fl} (rates : RateLaws rl) (laws : CreditLaws rl) (j : Bytes)
    (q : Quota fl.F) (limited : usable_rate fl q.rate ≢ fl.max_float) where
  open laws use {unit, gain}

  -- The calls for the key come at instants that do not go back, from `t` on; the others are about
  -- other keys, where they come.
  abbrev pub Schedule : Tally rl → ℤ → List (Event rl) → Type 0
  Schedule s t [] = Unit
  Schedule s t (own a ∷ es) =
      (t ≤ℤ a.now)
      × Serves rates laws j q limited a.owner
      × Schedule (perform rl s (allows j a)) a.now es
  Schedule s t (other c ∷ es) =
      Elsewhere rl j (lookup s.limiter.registry j) c × Schedule (perform rl s c) t es
