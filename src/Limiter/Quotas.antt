-- ===== src/Limiter/Quotas.antt =====
-- The settings and the quotas that limiter/ works with.
use Prim.Native.Nat.{bit_and}
use pace.Prelude.{
  ℕ, ◌-◌, ◌==◌, ◌≡◌, refl, ap, subst, replicate, ◌∙◌, true, false, not, ◌||◌, ◌⊎◌, inr, Option,
  none, some, arith,
}
use pace.Prelude.Int.{ℤ, pos, leb_ℤ, pos_part, ◌≤ℤ◌}
use pace.Prelude.Bytes.{Bytes}
use pace.Float.{Float64, FloatLaws, zero_f}
use pace.Bucket.{Quota, finite}
use pace.Bucket.Coherence.{IsUsable}
use pace.Config.{
  Config, Error, Standard, with_defaults, resolve, checked, positive_or, or_else,
  round_up_power_of_two,
}
use pace.Config.Rounding.{round_up-IsPower, IsPower, bit_and-power, IsPower-positive}
use pace.Limiter.{is_nil, validate, quota_for, usable_quota}
use pace.Registry.{Registry, new_registry, empty_shard}
use pace.Urlx.{UrlLib}

module _ {fl : Float64} (laws : FloatLaws fl) where
  open fl use {F, is_nan, is_neg_inf, le, max_float}

  max_float-positive : le max_float (zero_f fl) ≡ false
  max_float-positive =
      laws.le-or-lt max_float (zero_f fl) laws.max_float_not-nan laws.zero_not-nan
      ∙ ap not laws.max_float_positive

  finite-positive :
      (r : F)
      → (le r (zero_f fl) || is_nan r) ≡ false
      → (le (finite fl r) (zero_f fl) || is_nan (finite fl r)) ≡ false
  unfolding finite
  finite-positive r h = ground (arith, h, max_float-positive, laws.max_float_not-nan)

  -- A quota as a hook may leave it: at least one token, and a rate that is 0 or above it and that
  -- arithmetic can hold.
  abbrev pub IsQuota : Quota F → Type 0
  IsQuota q =
      (pos 1 ≤ℤ q.burst)
      × IsUsable laws q.rate
      × ((q.rate ≡ zero_f fl) ⊎ (le q.rate (zero_f fl) ≡ false))

  usable_quota-IsQuota : (q : Quota F) → IsQuota (usable_quota fl q)
  unfolding finite
  usable_quota-IsQuota q = (
    ground arith,
    ground (
      arith, laws.zero_not-nan, laws.zero_not-pos_inf, laws.zero_not-neg_inf,
      laws.max_float_not-nan, laws.max_float_not-pos_inf, laws.max_float_not-neg_inf,
    ),
    ground arith,
  )

  -- Whatever a WithQuotaFor hook answers for a key, the key's quota has a burst of one or more and a
  -- rate that is no NaN and not infinite, and is 0 or above 0.
  pub quota_for-IsQuota :
      (f : Bytes → Quota F → Quota F) (c : Config F) (key : Bytes)
      → IsQuota (quota_for fl (some f) c key)
  unfolding quota_for
  quota_for-IsQuota f c key = usable_quota-IsQuota (f key c.quota)

  -- A hook that answers with a rate of minus infinity does not bring its key to a standstill but makes
  -- it unlimited: the key's rate is the greatest number there is.
  quota_for_neg_inf :
      (f : Bytes → Quota F → Quota F) (c : Config F) (key : Bytes)
      → is_neg_inf (f key c.quota).rate ≡ true
      → (quota_for fl (some f) c key).rate ≡ max_float
  unfolding quota_for finite
  quota_for_neg_inf f c key h = ground (arith, h, max_float-positive, laws.max_float_not-nan)

  module _ (ul : UrlLib) (std : Standard) where
    filled : (d k : ℤ) → leb_ℤ k (pos 0) ≡ false → leb_ℤ (positive_or d k) (pos 0) ≡ false
    filled d k h = ground arith

    present : (x : Option ℕ) (d : ℕ) → is_nil (or_else x d) ≡ false
    present none d = refl
    present (some x) d = refl

    counted : (p : ℕ) → IsPower p → (leb_ℤ (pos p) (pos 0) || not (bit_and p (p - 1) == 0)) ≡ false
    counted p h = ground (arith, bit_and-power p h, IsPower-positive p h)

    ready :
        (c : Config F)
        → (le c.quota.rate (zero_f fl) || is_nan c.quota.rate) ≡ false
        → validate fl (with_defaults fl std c) ≡ none
    unfolding validate with_defaults
    ready c h =
        let q = finite-positive c.quota.rate h in
        let burst = filled c.quota.burst (pos 1) refl in
        let rates : (le (finite fl c.quota.rate) (zero_f fl)
              || is_nan (finite fl c.quota.rate)
              || leb_ℤ (positive_or c.quota.burst (pos 1)) (pos 0))
            ≡ false =
          ground (arith, q, burst) in
        rw (
          rates,
          present c.clock std.clock,
          present c.logger std.logger,
          counted (round_up_power_of_two c.shards) (round_up-IsPower c.shards),
          filled c.idle_expiry (pos 600_000_000_000) refl,
          filled c.gc_interval (pos 60_000_000_000) refl,
          filled c.store_timeout (pos 5_000_000_000) refl,
        )

    positive_rate :
        (c : Config F)
        → package.pace.Config.validate fl ul c ≡ none
        → (le c.quota.rate (zero_f fl) || is_nan c.quota.rate) ≡ false
    unfolding package.pace.Config.validate
    positive_rate c h = ground arith

    abbrev IsReady : Config F → Type 0
    IsReady d =
        (validate fl d ≡ none) × ((r : Registry Unit) × (new_registry (pos_part d.shards) ≡ some r))

    built : (p : ℕ) → IsPower p → (r : Registry Unit) × (new_registry p ≡ some r)
    unfolding new_registry
    built p h =
        let fine : ((p == 0) || not (bit_and p (p - 1) == 0)) ≡ false =
          ground (arith, bit_and-power p h, IsPower-positive p h) in
        (record { shards = replicate p empty_shard; next_id = 0; evictions = 0 }, rw fine)

    IsReady-defaults :
        (c : Config F)
        → (le c.quota.rate (zero_f fl) || is_nan c.quota.rate) ≡ false
        → IsReady (with_defaults fl std c)
    unfolding with_defaults
    IsReady-defaults c h =
        (ready c h, built (round_up_power_of_two c.shards) (round_up-IsPower c.shards))

    -- Settings that `Resolve` accepts are settings that `limiter.New` does not panic on: it fills in
    -- every default, and rounds the shard count to a power of two, which `registry.New` takes as well.
    pub resolve_ready :
        (c d : Config F)
        → resolve fl ul std c ≡ inr d
        → (validate fl d ≡ none)
          × ((r : Registry Unit) × (new_registry (pos_part d.shards) ≡ some r))
    unfolding resolve
    resolve_ready c d h = by_check (package.pace.Config.validate fl ul c) refl h
      where
        by_check :
            (o : Option Error)
            → package.pace.Config.validate fl ul c ≡ o
            → checked fl std c o ≡ inr d
            → IsReady d
        by_check (some e) p q = cc
        by_check none p q =
            let same : with_defaults fl std c ≡ d = cc in
            subst IsReady same (IsReady-defaults c (positive_rate c p))
