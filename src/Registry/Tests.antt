-- ===== src/Registry/Tests.antt =====
-- Runs of registry/registry.go and registry/gc.go at fixed inputs.
use pace.Prelude.{◌^◌, ◌%◌, ◌≡◌, refl, List, true, false, none, some, [], ◌∷◌, arith, Option}
use pace.Prelude.Int.{ℤ, pos, ◌-ℤ◌, ◌≤ℤ◌}
use pace.Prelude.Bytes.{Bytes, text, bytes_eq}
use pace.Prelude.Assoc
use pace.Prelude.Word.{wrap64}
use pace.Bucket.{Quota}
use pace.Bucket.Api.{bucket_api}
use pace.Registry.{
  BucketApi, Registry, Entry, Snapshot, Owner, empty_shard, get_or_create, lookup, shard_for,
  shard_at, shard_index, fnv,
}
use pace.Registry.Gc.{sweep, evict}
use pace.Registry.Create.{Wins, lookup-get_or_create}
use pace.Registry.Population.{IsValid, empty_shard-IsShard}
use pace.Registry.Run.{Op, run, run-keys, creates, touches, sweeps, drops, sample_keys, sampled}
use pace.Registry.Gc.Keeps.{sweep_keeps}
use pace.Registry.Gc.Counts.{evict_outcome, EvictsAny}
use pace.Samples.{Num, whole, rates, bucket_of}

-- The buckets of Samples, and their token counts.
abbrev api : BucketApi
api = bucket_api rates

abbrev quota : Quota Num
quota = record { rate = whole (pos 2); burst = pos 5 }

abbrev a : Bytes
a = text "a"

abbrev entry : Entry api.Bkt
entry = record { id = 0; bucket = bucket_of (pos 4); last_used = pos 100 }

abbrev empty : Registry api.Bkt
empty = record { shards = empty_shard ∷ empty_shard ∷ []; next_id = 0; evictions = 0 }

abbrev stocked : Registry api.Bkt
stocked = record {
  shards = record { keys = (a, entry) ∷ []; live = 1 } ∷ empty_shard ∷ [];
  next_id = 1;
  evictions = 0;
}

empty-IsValid : IsValid empty
empty-IsValid = record {
  sharded = omega arith;
  shards_valid = (empty_shard-IsShard, (empty_shard-IsShard, tt));
}

stocked-IsValid : IsValid stocked
unfolding Assoc.lookup
stocked-IsValid = record {
  sharded = omega arith;
  shards_valid = (record { unique = (refl, tt); counted = refl }, (empty_shard-IsShard, tt));
}

found : lookup stocked a ≡ some entry
unfolding lookup shard_for shard_at shard_index fnv Assoc.lookup bytes_eq
found = refl

abbrev ops : List (Op api)
ops =
    creates a quota none (pos 100)
    ∷ creates (text "b") quota none (pos 300)
    ∷ touches a 0 (pos 200)
    ∷ sweeps 1 (pos 400) (pos 250) true
    ∷ []

-- Another caller makes a key before the first shard is read, and drops the second one before that is.
abbrev between : List (List (Op api))
between = (creates (text "c") quota none (pos 500) ∷ []) ∷ (drops 1 ∷ []) ∷ []

run-keys_example :
    IsValid (run api empty ops)
    × (sample_keys api (run api empty ops) 0 between
        ≡ sampled api (run api empty ops) 0 between % 2 ^ 64)
run-keys_example = run-keys api empty ops between empty-IsValid

abbrev owner : Owner api
owner = record {
  now = pos 300;
  persists = true;
  load = λ k. none;
  quota_for = λ k. quota;
  others = λ r. stocked;
}

lookup-get_or_create_example :
    (lookup (get_or_create api empty a owner).0 a ≡ some (get_or_create api empty a owner).1)
    × Wins api empty (lookup empty a) (lookup stocked a) (get_or_create api empty a owner)
lookup-get_or_create_example = lookup-get_or_create api empty a owner (omega arith)

recent : wrap64 (pos 150 -ℤ pos 60) ≤ℤ pos 100
unfolding wrap64 ◌-ℤ◌
recent = omega arith

sweep_keeps_example :
    lookup (sweep api empty (pos 150) (pos 150) (pos 60) true false (λ r. stocked)).0 a ≡ some entry
sweep_keeps_example =
    sweep_keeps api empty (pos 150) (pos 150) (pos 60) false (λ r. stocked) a entry refl found
      recent

abbrev refuse : Snapshot api.Tok → Option ℤ
refuse s = some (pos 9)

evict_outcome_example :
    EvictsAny api stocked a
      (pos 500)
      true
      refuse
      (lookup stocked a)
      (evict api stocked a (pos 500) true refuse)
evict_outcome_example = evict_outcome api stocked a (pos 500) true refuse (omega arith)
