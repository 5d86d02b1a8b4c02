-- ===== src/Gate/Rounds.antt =====
-- gate/admit.go: the non-blocking decision, the polling loop and the wait at the backend. What
-- other goroutines do to the bucket in the meantime is an argument.
pub mod Polling
pub mod Reports
pub mod Ends
pub mod Waiting
use pace.Prelude.{ℕ, ◌+◌, ◌&&◌, ◌||◌, Bool, true, false, not, Option, none, some, if◌then◌else◌}
use pace.Prelude.Int.{ℤ, pos, ltb_ℤ}
use pace.Prelude.Bytes.{Bytes}
use pace.Prelude.Word.{add_int64}
use pace.Breaker
use pace.Float.{Float64}
use pace.Bucket.{Quota, RateLib, Bucket, reserve_at, cancel_at, delay_at}
use pace.Shared.{ErrorPolicy, fallback_local, deny, allow_all, other, TakeRequest, Grant}
use pace.Gate.{
  CtxError, GateError, closed, breaker_open, context, backend, limiter, unavailable, wait_error,
  Spec, Gate, Outside, Taken, take, request, retry_delay,
}

abbrev pub is_none {ℓ} : {A : Type ℓ} → Option A → Bool
is_none none = true
is_none (some a) = false

-- What happens outside during one call of `wait`: `answer` is nil or the error of Waiter.Wait,
-- `parked` is the bucket's own Wait, with the error it ends in.
pub record Parking {fl : Float64} (rl : RateLib fl) : Type 0 where
  pub now : ℤ
  pub answer : TakeRequest fl.F → Option ℤ
  pub owner_done : Bool
  pub caller_error : Option CtxError
  pub failed_at : ℤ
  pub parked : Bucket rl → Bucket rl × Option ℤ

module _ {fl : Float64} (rl : RateLib fl) where
  open fl use {F}
  open rl use {Held, held_ok, held_delay}

  abbrev pub Change : Type 0
  Change = Bucket rl → Bucket rl

  pub record Decision : Type 0 where
    pub gate : Gate
    pub bucket : Bucket rl
    pub ok : Bool
    pub delay : ℤ
    pub tokens : Option F

  abbrev pub decide : Bucket rl → Held → ℤ → Quota F → Change → Gate × Taken F → Decision
  decide b held now q meanwhile (g, t) =
      if t.proceed && is_none t.error
      then record { gate = g; bucket = meanwhile b; ok = true; delay = pos 0; tokens = none }
      else record {
        gate = g;
        bucket = cancel_at rl (meanwhile b) held now;
        ok = false;
        delay = retry_delay fl t.grant q.rate;
        tokens = t.grant.remaining;
      }

  unfoldable pub allow : Spec → Gate → Bytes → Bucket rl → ℤ → Outside F → Change → Decision
  allow s g key b now o meanwhile =
      let (b', held) = reserve_at rl b now in
      let cancelled = cancel_at rl b' held now in
      if not (held_ok held) || ltb_ℤ (pos 0) (held_delay held now)
      then record {
        gate = g;
        bucket = cancelled;
        ok = false;
        delay = delay_at rl cancelled now;
        tokens = none;
      }
      else decide b' held now b'.quota meanwhile (take s g key b'.quota.rate b'.quota.burst o)

  abbrev pub parked_error : Bucket rl × Option ℤ → Bucket rl × Option GateError
  parked_error (b, none) = (b, none)
  parked_error (b, some e) = (b, some (wait_error (limiter e)))

  unfoldable pub wait_fallback :
      ErrorPolicy
      → (Bucket rl → Bucket rl × Option ℤ)
      → Bucket rl
      → GateError
      → Bucket rl × Option GateError
  wait_fallback deny parked b cause = (b, some (unavailable cause))
  wait_fallback allow_all parked b cause = (b, none)
  wait_fallback fallback_local parked b cause = parked_error (parked b)
  wait_fallback (other n) parked b cause = parked_error (parked b)

  pub record Waited : Type 0 where
    pub gate : Gate
    pub bucket : Bucket rl
    pub error : Option GateError

  abbrev fall_back : Spec → Gate → Bucket rl → Parking rl → GateError → Waited
  fall_back s g b o cause =
      let (b', e) = wait_fallback s.on_error o.parked b cause in
      record { gate = g; bucket = b'; error = e }

  abbrev after_wait : Spec → Gate → Bucket rl → Parking rl → Option ℤ → Waited
  after_wait s g b o none = record {
    gate = record g { breaker = Breaker.succeeded g.breaker };
    bucket = b;
    error = none;
  }
  after_wait s g b o (some e) =
      if o.owner_done
      then record { gate = g; bucket = b; error = some closed }
      else elim o.caller_error [
        | some c ↦ record {
          gate = record g { breaker = Breaker.abandoned g.breaker };
          bucket = b;
          error = some (context c);
        }
        | none ↦
            fall_back s
              (record g {
                failures = add_int64 g.failures 1;
                breaker = Breaker.failed g.breaker o.failed_at;
              })
              b o (backend e)
      ]

  unfoldable pub wait : Spec → Gate → Bytes → Bucket rl → Parking rl → Waited
  unfolding request wait_fallback
  wait s g key b o =
      let (breaker, allowed) = Breaker.allow g.breaker o.now in
      if allowed
      then after_wait s (record g { breaker = breaker; takes = add_int64 g.takes 1 }) b o
          (o.answer (request s key b.quota.rate b.quota.burst))
      else fall_back s (record g { breaker = breaker; failures = add_int64 g.failures 1 }) b o
          breaker_open
