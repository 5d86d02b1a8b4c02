-- ===== src/Limiter/Acquire.antt =====
-- limiter/ratelimit.go (acquire) and limiter/errors.go: the call that waits for a token, and the
-- error that a caller who did not get one sees.
pub mod Outcomes
mod Parked
use pace.Prelude.{
  ℕ, Bool, true, false, ◌⊎◌, inl, inr, Option, none, some, List, [], ◌∷◌, if◌then◌else◌,
}
use pace.Prelude.Int.{ℤ}
use pace.Prelude.Bytes.{Bytes}
use pace.Float.{Float64, one_f}
use pace.Bucket
use pace.Bucket.{RateLib, Bucket}
use pace.Bucket.Api.{bucket_api}
use pace.Gate
use pace.Gate.{Gate, GateError, unavailable, wait_error, limiter}
use pace.Gate.Rounds.{Parking, Waited, wait}
use pace.Gate.Rounds.Polling
use pace.Gate.Rounds.Polling.{Effect, reported, slept, Round, Loop, End}
use pace.Registry.{Registry, Entry, Owner, get_or_create}
use pace.Limiter.Admission.{
  Limiter, Counters, count_request, count_throttled, shared_enabled, spent,
}

-- LimitError. Its text is left out.
pub record LimitError (F : Type 0) : Type 0 where
  pub key : Bytes
  pub limit : F
  pub burst : ℤ
  pub delay : ℤ
  pub cause : GateError

-- The errors of acquire: ErrClosed, a LimitError, or what the gate returned.
pub data AcquireError (F : Type 0) : Type 0 where
  closed : AcquireError F
  limited : LimitError F → AcquireError F
  passed : GateError → AcquireError F

-- errors.As(err, &we), which looks under ErrUnavailable too.
unfoldable pub as_wait_error : GateError → Option GateError
as_wait_error (wait_error cause) = some cause
as_wait_error (unavailable cause) = as_wait_error cause
as_wait_error e = none

-- The delays of the throttle reports of the polling loop.
abbrev pub reported_delays : {F : Type 0} → List (Effect F) → List ℤ
reported_delays [] = []
reported_delays (reported d t ∷ es) = d ∷ reported_delays es
reported_delays (slept d ∷ es) = reported_delays es

abbrev pub count_delays : Counters → List ℤ → Counters
count_delays c [] = c
count_delays c (d ∷ ds) = count_delays (count_throttled c d) ds

module _ {fl : Float64} (rl : RateLib fl) where
  open fl use {F}

  -- A backend that parks callers, or one that is polled.
  pub data Way : Type 0 where
    parks : Parking rl → Way
    polls : List (Round rl) → Way

  -- What the call meets: the wait on the bucket itself with its error, whether the limiter's context
  -- has ended when a wait failed, and the clock then.
  pub record Meets : Type 0 where
    pub now : ℤ
    pub owner : Owner (bucket_api rl)
    pub way : Way
    pub bucket_wait : Bucket rl → Bucket rl × Option ℤ
    pub cancelled : Bool
    pub failed_at : ℤ

  unfoldable pub throttled : Bytes → Bucket rl → Bool → ℤ → GateError → AcquireError F
  throttled key b cancelled t cause =
      if cancelled
      then closed
      else limited (record {
        key = key;
        limit = b.quota.rate;
        burst = b.quota.burst;
        delay = Bucket.delay_at rl b t;
        cause = cause;
      })

  abbrev pub marked : Bytes → Bucket rl → Bool → ℤ → GateError → Option GateError → AcquireError F
  marked key b cancelled t e none = passed e
  marked key b cancelled t e (some cause) = throttled key b cancelled t cause

  unfoldable pub throttled_from_gate :
      Bytes → Bucket rl → Bool → ℤ → Option GateError → Option (AcquireError F)
  unfolding as_wait_error throttled
  throttled_from_gate key b cancelled t none = none
  throttled_from_gate key b cancelled t (some e) =
      some (marked key b cancelled t e (as_wait_error e))

  -- `result` is nothing while the caller is still waiting; `delays` are those reported as throttled.
  pub record Acquired : Type 0 where
    pub limiter : Limiter rl
    pub result : Option (Option (AcquireError F))
    pub delays : List ℤ

  abbrev pub ended : Bytes → Bucket rl → Bool → ℤ → End rl → Option (Option (AcquireError F))
  ended key b cancelled t none = none
  ended key b cancelled t (some e) = some (throttled_from_gate key b cancelled t e)

  abbrev pub after_wait :
      Limiter rl → Registry (Bucket rl) → Bytes → Entry (Bucket rl) → Meets → Waited rl → Acquired
  after_wait l r key e m x = record {
    limiter = spent rl l r key e m.now x.bucket (some x.gate) (count_request l.stats);
    result = some (throttled_from_gate key x.bucket m.cancelled m.failed_at x.error);
    delays = [];
  }

  abbrev pub after_polls :
      Limiter rl
      → Registry (Bucket rl)
      → Bytes
      → Entry (Bucket rl)
      → Meets
      → Loop rl × End rl
      → Acquired
  after_polls l r key e m (x, end) =
      let delays = reported_delays x.log in
      record {
        limiter =
            spent rl l r key e m.now x.bucket (some x.gate)
              (count_delays (count_request l.stats) delays);
        result = ended key x.bucket m.cancelled m.failed_at end;
        delays = delays;
      }

  abbrev pub from_gate :
      Limiter rl → Registry (Bucket rl) → Bytes → Entry (Bucket rl) → Meets → Gate → Way → Acquired
  from_gate l r key e m g (parks o) = after_wait l r key e m (wait rl l.spec g key e.bucket o)
  from_gate l r key e m g (polls rs) =
      after_polls l r key e m (Polling.acquire rl l.spec g key e.bucket rs)

  abbrev pub bucket_error : Bytes → Meets → Bucket rl → Option ℤ → Option (AcquireError F)
  bucket_error key m b none = none
  bucket_error key m b (some e) = some (throttled key b m.cancelled m.failed_at (limiter e))

  -- The bucket has no token at `now`.
  unfoldable pub must_wait : Bucket rl → ℤ → Bool
  must_wait b now = fl.lt (Bucket.tokens_at rl b now) (one_f fl)

  abbrev pub from_bucket :
      Limiter rl → Registry (Bucket rl) → Bytes → Entry (Bucket rl) → Meets → Acquired
  from_bucket l r key e m =
      let delays =
        if must_wait e.bucket m.now then Bucket.delay_at rl e.bucket m.now ∷ [] else [] in
      let (b, error) = m.bucket_wait e.bucket in
      record {
        limiter = spent rl l r key e m.now b l.gate (count_delays (count_request l.stats) delays);
        result = some (bucket_error key m b error);
        delays = delays;
      }

  abbrev pub acquire_by :
      Limiter rl
      → Registry (Bucket rl)
      → Bytes
      → Entry (Bucket rl)
      → Meets
      → Option Gate
      → Bool
      → Acquired
  acquire_by l r key e m (some g) true = from_gate l r key e m g m.way
  acquire_by l r key e m _ _ = from_bucket l r key e m

  abbrev pub acquire_entry :
      Limiter rl → Bytes → Meets → Registry (Bucket rl) × Entry (Bucket rl) → Acquired
  acquire_entry l key m (r, e) =
      acquire_by l r key e m l.gate (shared_enabled rl l.gate e.bucket.quota)

  -- The caller has entered the limiter.
  unfoldable pub acquire : Limiter rl → Bytes → Meets → Acquired
  unfolding throttled_from_gate throttled must_wait
  acquire l key m = acquire_entry l key m (get_or_create (bucket_api rl) l.registry key m.owner)
