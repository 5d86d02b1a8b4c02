-- ===== src/Limiter/Engine/Tests.antt =====
-- A limiter put together and asked at fixed inputs.
use pace.Prelude.{◌≡◌, refl, none, some, false, [], ◌∷◌}
use pace.Prelude.Int.{pos}
use pace.Prelude.Bytes.{Bytes, text, bytes_eq}
use pace.Prelude.Assoc
use pace.Bucket.{Quota, set_quota_at, usable_rate}
use pace.Registry
use pace.Limiter.{quota_for}
use pace.Limiter.Admission.{Limiter}
use pace.Limiter.Engine.{zeroes, quota, reload_quotas}
use pace.Shared.{deny}
use pace.Samples.{settings, Num, whole, rates, bucket_of}

abbrev slower : Bytes → Quota Num → Quota Num
slower key q = record { rate = whole (pos 1); burst = pos 3 }

abbrev limiter : Limiter rates
limiter = record {
  shutting_down = false;
  registry = record {
    shards =
        record {
          keys = (text "a", record { id = 0; bucket = bucket_of (pos 4); last_used = pos 5 }) ∷ [];
          live = 1;
        }
        ∷ [];
    next_id = 1;
    evictions = 0;
  };
  gate = none;
  spec = record { namespace = []; timeout = pos 1; on_error = deny };
  stats = zeroes;
}

reloaded :
    quota rates
      (some slower)
      settings
      (reload_quotas rates (some slower) settings limiter (λ n. pos 8))
      (text "a")
    ≡ record { rate = whole (pos 1); burst = pos 3 }
unfolding quota reload_quotas Registry.lookup Registry.reload Registry.shard_at Assoc.lookup
    bytes_eq set_quota_at usable_rate quota_for
reloaded = refl
