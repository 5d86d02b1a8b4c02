-- ===== src/Limiter.antt =====
-- limiter/validate.go and limiter/quota.go: the checks on the settings, and a key's quota.
pub mod Quotas
pub mod Persist
pub mod Lifecycle
pub mod Admission
pub mod Reserve
pub mod Acquire
pub mod Observer
pub mod Engine
pub mod Isolation
pub mod Budget
mod Tests
mod CallTests
use Prim.Native.Nat.{bit_and}
use pace.Prelude.{◌-◌, ◌==◌, Bool, true, false, not, ◌||◌, Option, none, some, if◌then◌else◌}
use pace.Prelude.Int.{ℤ, pos, leb_ℤ, pos_part}
use pace.Prelude.Bytes.{Bytes}
use pace.Float.{Float64, zero_f}
use pace.Bucket.{Quota, finite}
use pace.Config.{Config}

-- The panics of validate.
pub data Panic : Type 0 where
  bad_quota missing_clock bad_shards bad_intervals : Panic

module _ {ℓ} {A : Type ℓ} where
  abbrev pub is_nil : Option A → Bool
  is_nil none = true
  is_nil (some a) = false

module _ (fl : Float64) where
  open fl use {F, is_nan, le}

  unfoldable pub validate : Config F → Option Panic
  validate c =
      if le c.quota.rate (zero_f fl) || is_nan c.quota.rate || leb_ℤ c.quota.burst (pos 0)
      then some bad_quota
      else if is_nil c.clock || is_nil c.logger
      then some missing_clock
      else if leb_ℤ c.shards (pos 0)
          || not (bit_and (pos_part c.shards) (pos_part c.shards - 1) == 0)
      then some bad_shards
      else if leb_ℤ c.idle_expiry (pos 0)
          || leb_ℤ c.gc_interval (pos 0)
          || leb_ℤ c.store_timeout (pos 0)
      then some bad_intervals
      else none

  -- What quotaFor makes of the answer of a WithQuotaFor hook.
  abbrev pub usable_quota : Quota F → Quota F
  usable_quota q =
      let rate = finite fl q.rate in
      record {
        rate = if le rate (zero_f fl) || is_nan rate then zero_f fl else rate;
        burst = if leb_ℤ q.burst (pos 0) then pos 1 else q.burst;
      }

  unfoldable pub quota_for : Option (Bytes → Quota F → Quota F) → Config F → Bytes → Quota F
  unfolding finite
  quota_for none c key = c.quota
  quota_for (some f) c key = usable_quota (f key c.quota)
