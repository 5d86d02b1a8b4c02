-- ===== src/Bucket/Api.antt =====
-- The buckets of bucket/bucket.go as the registry uses them.
use pace.Float.{Float64}
use pace.Bucket.{Quota, RateLib, Bucket, new_bucket, restore_bucket, tokens_at, set_quota_at}
use pace.Registry.{BucketApi}

abbrev pub bucket_api : {fl : Float64} → RateLib fl → BucketApi
bucket_api {fl} rl = record {
  Bkt = Bucket rl;
  Quo = Quota fl.F;
  Tok = fl.F;
  new_bucket = new_bucket rl;
  restore_bucket = restore_bucket rl;
  tokens_at = tokens_at rl;
  set_quota_at = set_quota_at rl;
}
