-- ===== src/Registry/Run.antt =====
-- registry/registry.go and registry/gc.go under concurrent callers: each critical section of one
-- shard's lock is one step, and any callers' steps interleave. A call that walks over the shards is
-- one step for each, with others' steps in between; Walks has it without them.
mod Walks
use pace.Prelude.{
  ℕ, ◌+◌, ◌%◌, ◌^◌, ◌≡◌, refl, Bool, Option, none, some, List, [], ◌∷◌, arith, length, get_or,
  All-get_or,
}
use pace.Prelude.Int.{ℤ}
use pace.Prelude.Bytes.{Bytes}
use pace.Prelude.Word.{add_int64}
use pace.Registry.{
  BucketApi, Registry, Shard, Entry, Snapshot, empty_shard, lookup, shard_at, shard_for, put_shard,
  create, reload_keys, reload_key, through, touch,
}
use pace.Registry.Gc.{Expired, delete_one, sweep_keys, without_key}
use pace.Registry.Population.{IsShard, IsValid, empty_shard-IsShard, put_shard-IsValid}
use pace.Registry.Preserve.{create-IsValid, without_key-IsValid, delete_one-IsValid, same_shards}
use pace.Registry.Preserve.Sweeps.{sweep_keys-IsShard}
use pace.Registry.Reload.{write-IsValid, reload_keys-IsShard, reload_key-IsValid}

module _ (api : BucketApi) where
  open api use {Bkt, Quo, Tok}

  -- `evicts` is the locked part of Evict, and `deletes` that of one entry in the third phase of a
  -- sweep, for whatever an earlier phase found: the registry may have changed since. `sweeps`, `drops`
  -- and `reloads` are the parts of sweepInPlace, DropAll and Reload for one shard, and `reports`
  -- counts evictions. `touches` goes through the pointer that a caller holds.
  pub data Op : Type 0 where
    creates : Bytes → Quo → Option (Snapshot Tok) → ℤ → Op
    touches : Bytes → ℕ → ℤ → Op
    evicts : Bytes → Op
    deletes : Expired api → Op
    sweeps : ℕ → ℤ → ℤ → Bool → Op
    drops : ℕ → Op
    reloads : ℕ → (ℕ → ℤ) → (Bytes → Quo) → Op
    reloads_key : Bytes → ℤ → (Bytes → Quo) → Op
    reports : ℕ → Op

  abbrev pub shard : Registry Bkt → ℕ → Shard Bkt
  shard r i = get_or r.shards i empty_shard

  abbrev pub swept : ℤ → ℤ → Bool → Shard Bkt → Shard Bkt
  swept now cutoff notify sh =
      let k = sweep_keys api notify now cutoff sh.live sh.keys in
      record { keys = k.keys; live = k.live }

  abbrev pub reloaded : (ℕ → ℤ) → (Bytes → Quo) → Shard Bkt → Shard Bkt
  reloaded clock q sh = record sh { keys = reload_keys api clock q 0 sh.keys }

  abbrev pub evicted_if : Registry Bkt → Bytes → Option (Entry Bkt) → Registry Bkt
  evicted_if r key none = r
  evicted_if r key (some e) = without_key api r key

  unfoldable pub step : Registry Bkt → Op → Registry Bkt
  unfolding touch
  step r (creates key q found now) = (create api r key q found now).0
  step r (touches key id now) =
      let sh = shard_for r key in
      put_shard r (shard_at r key) (record sh { keys = through id (λ e. touch e now) sh.keys })
  step r (evicts key) = evicted_if r key (lookup r key)
  step r (deletes x) = (delete_one api r x).0
  step r (sweeps i now cutoff notify) = put_shard r i (swept now cutoff notify (shard r i))
  step r (drops i) = put_shard r i empty_shard
  step r (reloads i clock q) = put_shard r i (reloaded clock q (shard r i))
  step r (reloads_key key now q) = (reload_key api r key now q).0
  step r (reports n) = record r { evictions = add_int64 r.evictions n }

  unfoldable pub run : Registry Bkt → List Op → Registry Bkt
  unfolding step
  run r [] = r
  run r (o ∷ os) = run (step r o) os

  pub shard-IsShard : (r : Registry Bkt) (i : ℕ) → IsValid r → IsShard (shard r i)
  shard-IsShard r i v = All-get_or IsShard r.shards i empty_shard v.shards_valid empty_shard-IsShard

  pub step-IsValid : (r : Registry Bkt) (o : Op) → IsValid r → IsValid (step r o)
  unfolding step
  step-IsValid r (creates key q found now) v = create-IsValid api r key q found now v
  step-IsValid r (touches key id now) v = write-IsValid r key id (λ e. touch e now) v
  step-IsValid r (evicts key) v = by_lookup (lookup r key) refl
    where
      by_lookup : (o : Option (Entry Bkt)) → lookup r key ≡ o → IsValid (evicted_if r key o)
      by_lookup none h = v
      by_lookup (some e) h = without_key-IsValid api r key e v h
  step-IsValid r (deletes x) v = delete_one-IsValid api r x v
  step-IsValid r (sweeps i now cutoff notify) v =
      put_shard-IsValid r i _ v (sweep_keys-IsShard api notify now cutoff _ (shard-IsShard r i v))
  step-IsValid r (drops i) v = put_shard-IsValid r i empty_shard v empty_shard-IsShard
  step-IsValid r (reloads i clock q) v =
      put_shard-IsValid r i _ v (reload_keys-IsShard api clock q _ (shard-IsShard r i v))
  step-IsValid r (reloads_key key now q) v = reload_key-IsValid api r key now q v
  step-IsValid r (reports n) v = same_shards r _ refl v

  run-IsValid : (r : Registry Bkt) (os : List Op) → IsValid r → IsValid (run r os)
  unfolding run
  run-IsValid r [] v = v
  run-IsValid r (o ∷ os) v = run-IsValid (step r o) os (step-IsValid r o v)

  -- Keys, which adds up the shards' counts one after the other from the shard `i` on; before it reads
  -- each, others do the steps of one list.
  unfoldable pub sample_keys : Registry Bkt → ℕ → List (List Op) → ℕ
  sample_keys r i [] = 0
  sample_keys r i (os ∷ rest) =
      let q = run r os in add_int64 (shard q i).live (sample_keys q (i + 1) rest)

  -- The number of keys that each shard has at the moment at which it is read.
  abbrev pub sampled : Registry Bkt → ℕ → List (List Op) → ℕ
  sampled r i [] = 0
  sampled r i (os ∷ rest) = length (shard (run r os) i).keys + sampled (run r os) (i + 1) rest

  sample_keys-sampled :
      (r : Registry Bkt) (i : ℕ) (oss : List (List Op))
      → IsValid r
      → sample_keys r i oss ≡ sampled r i oss % 2 ^ 64
  unfolding sample_keys add_int64
  sample_keys-sampled r i [] v = omega arith
  sample_keys-sampled r i (os ∷ rest) v =
      let w = run-IsValid r os v in
      let h = shard-IsShard (run r os) i w in
      omega (arith, h.counted, sample_keys-sampled (run r os) (i + 1) rest w)

  -- However the callers' critical sections interleave, no key is in a shard twice and each shard's
  -- atomic count is the number of its keys; and what `Keys` then adds up without a lock, while others
  -- go on between the shards, is the number of keys that each shard has at the moment at which it is
  -- read (modulo 2 ^ 64). It holds from any well-formed registry on.
  pub run-keys :
      (r : Registry Bkt) (os : List Op) (oss : List (List Op))
      → IsValid r
      → IsValid (run r os) × (sample_keys (run r os) 0 oss ≡ sampled (run r os) 0 oss % 2 ^ 64)
  run-keys r os oss v = let w = run-IsValid r os v in (w, sample_keys-sampled (run r os) 0 oss w)
