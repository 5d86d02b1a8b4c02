-- ===== src/Limiter/Acquire/Outcomes.antt =====
-- What `acquire` of limiter/ratelimit.go counts and reports, and the errors of limiter/errors.go.
use pace.Prelude.{◌≡◌, Bool, true, false, Option, none, some, List, [], ◌∷◌}
use pace.Prelude.Int.{ℤ}
use pace.Prelude.Bytes.{Bytes}
use pace.Prelude.Word.{add_int64, wrap64}
use pace.Float.{Float64}
use pace.Bucket
use pace.Bucket.{RateLib, Bucket}
use pace.Gate.{Gate, limiter}
use pace.Gate.Rounds.Polling
use pace.Gate.Rounds.Polling.{Round}
use pace.Registry.{Registry, Entry, lookup, touch}
use pace.Registry.Population.{IsValid}
use pace.Limiter.Admission.{Limiter, Counters}
use pace.Limiter.Acquire.{
  AcquireError, closed, limited, passed, Meets, throttled, as_wait_error, Acquired,
}

-- At most one delay, and the counter of throttled requests has gone up by as many.
abbrev pub Throttles : Counters → Counters → List ℤ → Type 0
Throttles before after [] = after.throttled ≡ before.throttled
Throttles before after (d ∷ []) = after.throttled ≡ add_int64 before.throttled 1
Throttles before after (d ∷ e ∷ ds) = ⊥

module _ {fl : Float64} (rl : RateLib fl) where
  -- What a result may be, for a key whose bucket the call leaves as `b`: ErrClosed only when the
  -- limiter's context has ended, a LimitError only when it has not, with the key and the quota of the
  -- bucket, and any other error of the gate as it is.
  abbrev pub Explains : Bytes → Bucket rl → Bool → Option (Option (AcquireError fl.F)) → Type 0
  Explains key b cancelled none = Unit
  Explains key b cancelled (some none) = Unit
  Explains key b cancelled (some (some closed)) = cancelled ≡ true
  Explains key b cancelled (some (some (limited e))) =
      (cancelled ≡ false) × (e.key ≡ key) × (e.limit ≡ b.quota.rate) × (e.burst ≡ b.quota.burst)
  Explains key b cancelled (some (some (passed e))) = as_wait_error e ≡ none

  -- One request more, the throttles that are reported, a key that is in memory and was last used at
  -- `now`, and a result that fits.
  pub record Accounts (l : Limiter rl) (key : Bytes) (m : Meets rl) (out : Acquired rl)
      : Type 0 where
    pub counted : out.limiter.stats.requests ≡ add_int64 l.stats.requests 1
    pub throttles : Throttles l.stats out.limiter.stats out.delays
    pub entry : Entry (Bucket rl)
    pub there : lookup out.limiter.registry key ≡ some entry
    pub touched : entry.last_used ≡ wrap64 m.now
    pub explained : Explains key entry.bucket m.cancelled out.result

  module _ (l : Limiter rl) (key : Bytes) (m : Meets rl) (r : Registry (Bucket rl))
      (e : Entry (Bucket rl)) (v : IsValid r) (h : lookup r key ≡ some e) where
    -- The entry as the call leaves it.
    left : Bucket rl → Entry (Bucket rl)
    unfolding touch
    left b = record (touch e m.now) { bucket = b }
