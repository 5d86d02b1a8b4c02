-- ===== src/Bucket/Coherence.antt =====
-- A bucket of bucket/bucket.go enforces the quota that it publishes.
use pace.Prelude.{◌≡◌, ◌∙◌, false, arith, List, [], ◌∷◌}
use pace.Prelude.Int.{ℤ, pos}
use pace.Float.{Float64, FloatLaws, is_inf}
use pace.Bucket.{
  Quota, RateLib, Bucket, usable_rate, new_bucket, restore_bucket, set_quota_at, allow_at,
  reserve_at, cancel_at, restored_tokens, drain_instant,
}

-- What rate.Limiter documents: only SetLimitAt changes the limit.
pub record RateLaws {fl : Float64} (rl : RateLib fl) : Type 0 where
  pub limit-new : (r : fl.F) (b : ℤ) → rl.limit (rl.new_limiter r b) ≡ r
  pub limit-set_limit : (l : rl.Limiter) (t : ℤ) (r : fl.F) → rl.limit (rl.set_limit_at l t r) ≡ r
  pub limit-set_burst : (l : rl.Limiter) (t b : ℤ) → rl.limit (rl.set_burst_at l t b) ≡ rl.limit l
  pub limit-allow : (l : rl.Limiter) (t n : ℤ) → rl.limit (rl.allow_n l t n).0 ≡ rl.limit l
  pub limit-reserve : (l : rl.Limiter) (t n : ℤ) → rl.limit (rl.reserve_n l t n).0 ≡ rl.limit l
  pub limit-cancel :
      (l : rl.Limiter) (h : rl.Held) (t : ℤ) → rl.limit (rl.cancel l h t) ≡ rl.limit l

module _ {fl : Float64} (laws : FloatLaws fl) where
  open fl use {F, is_nan}

  -- A rate that the arithmetic of rate.Limiter can hold.
  abbrev pub IsUsable : F → Type 0
  IsUsable r = (is_nan r ≡ false) × (is_inf fl r ≡ false)

  usable_rate-IsUsable : (r : F) → IsUsable (usable_rate fl r)
  unfolding usable_rate
  usable_rate-IsUsable r = ground (
    arith, laws.zero_not-nan, laws.zero_not-pos_inf, laws.zero_not-neg_inf, laws.max_float_not-nan,
    laws.max_float_not-pos_inf, laws.max_float_not-neg_inf,
  )

  module _ {rl : RateLib fl} (rates : RateLaws rl) where
    pub record IsCoherent (b : Bucket rl) : Type 0 where
      pub usable : IsUsable b.quota.rate
      pub enforced : rl.limit b.limiter ≡ b.quota.rate

    -- The calls on a bucket. A held token is any that the limiter gave out.
    pub data Call : Type 0 where
      sets : ℤ → Quota F → Call
      allows : ℤ → Call
      reserves : ℤ → Call
      cancels : rl.Held → ℤ → Call

    abbrev pub calls : Bucket rl → List Call → Bucket rl
    calls b [] = b
    calls b (sets t q ∷ cs) = calls (set_quota_at rl b t q) cs
    calls b (allows t ∷ cs) = calls (allow_at rl b t).0 cs
    calls b (reserves t ∷ cs) = calls (reserve_at rl b t).0 cs
    calls b (cancels h t ∷ cs) = calls (cancel_at rl b h t) cs

    calls-IsCoherent : (b : Bucket rl) (cs : List Call) → IsCoherent b → IsCoherent (calls b cs)
    unfolding set_quota_at allow_at reserve_at cancel_at
    calls-IsCoherent b [] v = v
    calls-IsCoherent b (sets t q ∷ cs) v = calls-IsCoherent (set_quota_at rl b t q) cs (record {
      usable = usable_rate-IsUsable q.rate;
      enforced =
          rates.limit-set_burst (rl.set_limit_at b.limiter t (usable_rate fl q.rate)) t q.burst
          ∙ rates.limit-set_limit b.limiter t (usable_rate fl q.rate);
    })
    calls-IsCoherent b (allows t ∷ cs) v = calls-IsCoherent (allow_at rl b t).0 cs (record {
      usable = v.usable;
      enforced = rates.limit-allow b.limiter t (pos 1) ∙ v.enforced;
    })
    calls-IsCoherent b (reserves t ∷ cs) v = calls-IsCoherent (reserve_at rl b t).0 cs (record {
      usable = v.usable;
      enforced = rates.limit-reserve b.limiter t (pos 1) ∙ v.enforced;
    })
    calls-IsCoherent b (cancels h t ∷ cs) v =
        calls-IsCoherent (cancel_at rl b h t) cs
          (record { usable = v.usable; enforced = rates.limit-cancel b.limiter h t ∙ v.enforced })

    -- Whatever rate a bucket is made, restored or reloaded with, and whatever calls follow, the quota
    -- that it publishes has a rate that is no NaN and not infinite, and it is the rate that the
    -- limiter enforces.
    pub bucket-IsCoherent :
        (q : Quota F) (saved : F) (saved_at now : ℤ) (cs : List Call)
        → IsCoherent (calls (new_bucket rl q) cs)
          × IsCoherent (calls (restore_bucket rl q saved saved_at now) cs)
    unfolding new_bucket restore_bucket
    bucket-IsCoherent q saved saved_at now cs =
        let r = usable_rate fl q.rate in
        let tokens = restored_tokens rl r q.burst saved saved_at now in
        (
          calls-IsCoherent (new_bucket rl q) cs (record {
            usable = usable_rate-IsUsable q.rate;
            enforced = rates.limit-new r q.burst;
          }),
          calls-IsCoherent (restore_bucket rl q saved saved_at now) cs (record {
            usable = usable_rate-IsUsable q.rate;
            enforced =
                rates.limit-reserve (rl.new_limiter r q.burst) (drain_instant fl now tokens r)
                  q.burst
                ∙ rates.limit-new r q.burst;
          }),
        )
