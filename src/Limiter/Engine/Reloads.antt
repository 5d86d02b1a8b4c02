-- ===== src/Limiter/Engine/Reloads.antt =====
-- ReloadQuotas and Quota of limiter/limiter.go and limiter/api.go.
use pace.Prelude.{◌≡◌, refl, ap, ◌∙◌, Option, none, some, arith, false}
use pace.Prelude.Int.{ℤ}
use pace.Prelude.Bytes.{Bytes}
use pace.Float.{Float64, FloatLaws, is_inf}
use pace.Bucket.{Quota, RateLib, Bucket, set_quota_at, usable_rate}
use pace.Bucket.Api.{bucket_api}
use pace.Config.{Config}
use pace.Registry.{Entry, lookup}
use pace.Registry.Reload.{requoted, lookup-reload}
use pace.Limiter.{quota_for}
use pace.Limiter.Admission.{Limiter}
use pace.Limiter.Engine.{quota, quota_of, reload_quotas}
use pace.Limiter.Quotas.{quota_for-IsQuota}

module _ {fl : Float64} (laws : FloatLaws fl) (rl : RateLib fl) where
  open fl use {F, is_nan}

  usable_kept : (r : F) → is_nan r ≡ false → is_inf fl r ≡ false → usable_rate fl r ≡ r
  unfolding usable_rate
  usable_kept r h k = ground arith

  set_quota-quota :
      (b : Bucket rl) (t : ℤ) (q : Quota F)
      → usable_rate fl q.rate ≡ q.rate
      → (set_quota_at rl b t q).quota ≡ q
  unfolding set_quota_at
  set_quota-quota b t q h = ap (λ x. record q { rate = x }) h

  by_entry :
      (now : ℤ) (q : Bytes → Quota F) (k : Bytes) (o : Option (Entry (Bucket rl)))
      → usable_rate fl (q k).rate ≡ (q k).rate
      → quota_of rl (q k) (requoted (bucket_api rl) now (q k) o) ≡ q k
  by_entry now q k none h = refl
  by_entry now q k (some e) h = set_quota-quota e.bucket now (q k) h

  -- After a ReloadQuotas at one instant, Quota answers for every key what the WithQuotaFor hook now
  -- makes of it, whether the key is in memory or not: what its bucket then enforces and what it would
  -- be given are the same.
  quota-reload_quotas :
      (f : Bytes → Quota F → Quota F) (c : Config F) (l : Limiter rl) (now : ℤ) (key : Bytes)
      → quota rl (some f) c (reload_quotas rl (some f) c l (λ n. now)) key
        ≡ quota_for fl (some f) c key
  unfolding quota reload_quotas
  quota-reload_quotas f c l now key =
      let q = quota_for fl (some f) c in
      let (burst, (nan, finite), sign) = quota_for-IsQuota laws f c key in
      ap (quota_of rl (q key)) (lookup-reload (bucket_api rl) l.registry now q key)
      ∙ by_entry now q key (lookup l.registry key) (usable_kept (q key).rate nan finite)
