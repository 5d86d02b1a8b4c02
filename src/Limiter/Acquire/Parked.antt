-- ===== src/Limiter/Acquire/Parked.antt =====
-- A caller that leaves while a backend has it parked, in gate/admit.go and limiter/errors.go.
use pace.Prelude.{◌≡◌, ap, true, false, some, arith}
use pace.Prelude.Int.{ℤ}
use pace.Prelude.Bytes.{Bytes}
use pace.Breaker
use pace.Float.{Float64}
use pace.Bucket.{RateLib, Bucket}
use pace.Gate.{Gate, CtxError, Spec, context, request}
use pace.Gate.Rounds.{Parking, wait}
use pace.Registry.{Registry, Entry}
use pace.Limiter.Admission.{Limiter}
use pace.Limiter.Acquire.{passed, parks, Meets, throttled_from_gate, as_wait_error, from_gate}

module _ {fl : Float64} (rl : RateLib fl) where
  wait_left :
      (s : Spec) (g : Gate) (key : Bytes) (b : Bucket rl) (o : Parking rl) (x : ℤ) (c : CtxError)
      → (Breaker.allow g.breaker o.now).1 ≡ true
      → o.answer (request s key b.quota.rate b.quota.burst) ≡ some x
      → o.owner_done ≡ false
      → o.caller_error ≡ some c
      → (wait rl s g key b o).error ≡ some (context c)
  unfolding wait
  wait_left s g key b o x c a h d f = ground arith

  -- A caller whose own deadline ends while a backend has it parked does not get a LimitError: the
  -- context's error comes back bare.
  parked_deadline :
      (l : Limiter rl) (key : Bytes) (m : Meets rl) (r : Registry (Bucket rl))
      (e : Entry (Bucket rl)) (g : Gate) (o : Parking rl) (x : ℤ) (c : CtxError)
      → (Breaker.allow g.breaker o.now).1 ≡ true
      → o.answer (request l.spec key e.bucket.quota.rate e.bucket.quota.burst) ≡ some x
      → o.owner_done ≡ false
      → o.caller_error ≡ some c
      → (from_gate rl l r key e m g (parks o)).result ≡ some (some (passed (context c)))
  unfolding throttled_from_gate as_wait_error
  parked_deadline l key m r e g o x c a b d f =
      ap
        (λ z. some (
          throttled_from_gate rl key (wait rl l.spec g key e.bucket o).bucket m.cancelled
            m.failed_at z))
        (wait_left l.spec g key e.bucket o x c a b d f)
