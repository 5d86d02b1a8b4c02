-- ===== src/Registry/Owned/Tests.antt =====
-- The entries of a registry with two keys.
use pace.Prelude.{ℕ, ◌≡◌, refl, arith, none, some, List, [], ◌∷◌, true}
use pace.Prelude.Int.{pos}
use pace.Prelude.Bytes.{Bytes, text, bytes_eq}
use pace.Prelude.Assoc
use pace.Bucket.{Quota}
use pace.Bucket.Api.{bucket_api}
use pace.Registry.{
  BucketApi, Registry, Entry, empty_shard, lookup, shard_for, shard_at, shard_index, fnv, create,
  new_entry, add_entry, put_shard, touch,
}
use pace.Registry.Directory.{Directory, Shows, act_all}
use pace.Registry.Directory.Refines.{run-Shows}
use pace.Registry.Owned.{lookup-replicate, IsOwned, Belongs, replicate-IsOwned}
use pace.Registry.Owned.Keys.{create-Keeps, run-Belongs}
use pace.Registry.Population.{IsValid, empty_shard-IsShard}
use pace.Registry.Preserve.{create-IsValid}
use pace.Registry.Run.{step, Op, run, creates, touches, sweeps, drops, evicts, reports}
use pace.Samples.{Num, whole, rates}

abbrev api : BucketApi
api = bucket_api rates

abbrev quota : Quota Num
quota = record { rate = whole (pos 2); burst = pos 5 }

abbrev a : Bytes
a = text "a"

abbrev empty : Registry api.Bkt
empty = record { shards = empty_shard ∷ empty_shard ∷ []; next_id = 0; evictions = 0 }

empty-IsValid : IsValid empty
empty-IsValid = record {
  sharded = omega arith;
  shards_valid = (empty_shard-IsShard, (empty_shard-IsShard, tt));
}

empty-IsOwned : IsOwned empty
empty-IsOwned = replicate-IsOwned 2 0 0

abbrev stocked : Registry api.Bkt
stocked = (create api empty a quota none (pos 100)).0

abbrev entry : Entry api.Bkt
entry = new_entry api 0 quota none (pos 100)

found : lookup stocked a ≡ some entry
unfolding lookup shard_for shard_at shard_index fnv Assoc.lookup bytes_eq create add_entry put_shard
    Assoc.insert
found = refl

-- The key is evicted and made again, and an old pointer is written through.
abbrev ops : List (Op api)
ops =
    creates (text "b") quota none (pos 100)
    ∷ evicts a
    ∷ reports 1
    ∷ drops 0
    ∷ creates a quota none (pos 200)
    ∷ touches a 0 (pos 300)
    ∷ []

run-Belongs_example : IsOwned (run api stocked ops) × Belongs entry.id a (run api stocked ops)
run-Belongs_example =
    run-Belongs api stocked ops a entry
      (create-IsValid api empty a quota none (pos 100) empty-IsValid)
      ((create-Keeps api empty a quota none (pos 100) empty-IsValid).owned empty-IsOwned) found

abbrev directory : Directory api.Bkt
directory = record { entry = λ k. none; next_id = 0 }

empty-Shows : Shows empty directory
empty-Shows = record { entries = lookup-replicate 2 0 0; ids = refl }

abbrev filed : List (Op api)
filed =
    creates a quota none (pos 100)
    ∷ creates (text "b") quota none (pos 150)
    ∷ touches a 0 (pos 300)
    ∷ sweeps 0 (pos 400) (pos 200) true
    ∷ drops 1
    ∷ evicts a
    ∷ []

touched : Belongs 0 a (step api stocked (creates (text "b") quota none (pos 150)))
unfolding run new_entry
touched =
    (run-Belongs api stocked (creates (text "b") quota none (pos 150) ∷ []) a entry
      (create-IsValid api empty a quota none (pos 100) empty-IsValid)
      ((create-Keeps api empty a quota none (pos 100) empty-IsValid).owned empty-IsOwned) found).1

abbrev place : Bytes → ℕ
place k = shard_index k 1

placed : (k : Bytes) → shard_at empty k ≡ place k
unfolding shard_at
placed k = refl

run-Shows_example : Shows (run api empty filed) (act_all api place directory filed)
unfolding step lookup shard_for shard_at shard_index fnv Assoc.lookup bytes_eq create add_entry
    put_shard Assoc.insert touch
run-Shows_example =
    run-Shows api place empty directory filed empty-IsValid empty-IsOwned empty-Shows placed
      (tt, (tt, (touched, (omega arith, (omega arith, (tt, tt))))))
