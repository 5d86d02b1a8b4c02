-- ===== src/Gate/Rounds/Waiting.antt =====
-- `wait` of gate/admit.go: a backend that parks its callers.
use pace.Prelude.{◌≡◌, ◌≢◌, true, false, ◌⊎◌, none, some, arith}
use pace.Prelude.Int.{ℤ, ◌≤ℤ◌, eq_ℤ_iff}
use pace.Prelude.Bytes.{Bytes}
use pace.Breaker.{zero_time, allow}
use pace.Float.{Float64}
use pace.Bucket.{RateLib, Bucket}
use pace.Shared.{fallback_local}
use pace.Gate.{Gate, Spec, closed, request}
use pace.Gate.Rounds.{Parking, wait, wait_fallback}

module _ {fl : Float64} (rl : RateLib fl) (s : Spec) (g : Gate) (key : Bytes) (b : Bucket rl)
    (o : Parking rl) where
  -- Under FallbackLocal a caller is let through by the backend, or by the wait on this replica's own
  -- bucket, and by nothing else.
  pub wait-fallback_local :
      s.on_error ≡ fallback_local
      → (wait rl s g key b o).error ≡ none
      → (((allow g.breaker o.now).1 ≡ true)
          × (o.answer (request s key b.quota.rate b.quota.burst) ≡ none))
        ⊎ (((o.parked b).1 ≡ none) × ((wait rl s g key b o).bucket ≡ (o.parked b).0))
  unfolding wait wait_fallback
  wait-fallback_local p h = ground arith

  -- The owner closes while the probe is parked: the call returns without a verdict, the probe stays
  -- out, and no later call gets through.
  pub wait_keeps_probe :
      (e : ℤ)
      → g.breaker.open_till ≢ zero_time
      → g.breaker.open_till ≤ℤ o.now
      → g.breaker.probing ≡ false
      → o.answer (request s key b.quota.rate b.quota.burst) ≡ some e
      → o.owner_done ≡ true
      → ((wait rl s g key b o).error ≡ some closed)
        × ((later : ℤ) → (allow (wait rl s g key b o).gate.breaker later).1 ≡ false)
  unfolding wait allow
  wait_keeps_probe e not_closed due idle answer closing = (
    ground (arith, eq_ℤ_iff g.breaker.open_till zero_time),
    λ later. ground (arith, eq_ℤ_iff g.breaker.open_till zero_time),
  )
