-- ===== src/Limiter/Lifecycle/Contexts/Tests.antt =====
-- Two requests, one of which has left when the limiter is cancelled.
use pace.Prelude.{◌≡◌, refl, false, [], ◌∷◌, ◌||◌}
use pace.Bucket.Api.{bucket_api}
use pace.Registry.{BucketApi, empty_shard}
use pace.Limiter.Lifecycle.{start, enter, leave, cancel}
use pace.Limiter.Lifecycle.Contexts.{
  outer, child, Scope, opened, is_done, with_lifetime, release, enter_with, leave_with, cancel_all,
  run_started, enters, leaves, runs, cancels, step, steps,
}
use pace.Limiter.Lifecycle.Contexts.Fresh.{opened-IsFresh, steps-IsFresh}
use pace.Limiter.Lifecycle.Contexts.Ends.{entered_ends}
use pace.Samples.{rates}

abbrev api : BucketApi
api = bucket_api rates

abbrev before : Scope api
before =
    steps api (opened api (record { shards = empty_shard ∷ []; next_id = 0; evictions = 0 }))
      (enters (outer 7) ∷ [])

abbrev after : Scope api
after = steps api (enter_with api before (outer 8)).0 (leaves 0 ∷ cancels ∷ runs 1 ∷ [])

not_yet :
    is_done api (step api (enter_with api before (outer 8)).0 cancels) (child (outer 8) 1) ≡ false
unfolding step opened start enter_with with_lifetime enter cancel_all cancel
not_yet = refl

entered_ends_example :
    is_done api after (enter_with api before (outer 8)).1.0
    ≡ (after.limiter.cancelled || is_done api after (outer 8))
unfolding step opened start enter_with with_lifetime enter leave leave_with release cancel_all
    cancel run_started
entered_ends_example =
    entered_ends api before (outer 8) (leaves 0 ∷ cancels ∷ runs 1 ∷ [])
      (steps-IsFresh api _ (enters (outer 7) ∷ []) (tt, tt) (opened-IsFresh api _)) refl
      (refl, (tt, (tt, tt))) refl
