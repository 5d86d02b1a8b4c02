-- ===== src/Registry/Shards.antt =====
-- Which shard of registry/registry.go holds a key, and what a write to a shard changes.

use pace.Prelude.{
  ℕ, ◌-◌, ◌<◌, ◌≤◌, ◌==◌, ==_iff, ◌≡◌, ap, ◌∙◌, Option, arith, length, get_or, length-set,
  get_or-set, if◌then◌else◌,
}
use pace.Prelude.Bits.{bit_and-le}
use pace.Prelude.Bytes.{Bytes, bytes_eq, bytes_eq_iff}
use pace.Prelude.Assoc
use pace.Registry.{
  Registry, Shard, Entry, empty_shard, fnv, shard_index, shard_at, shard_for, lookup, put_shard,
}

-- The mask keeps the index of a key inside the map, whatever the hash is.
pub shard_index-le : (key : Bytes) (mask : ℕ) → shard_index key mask ≤ mask
unfolding shard_index
shard_index-le key mask = bit_and-le (fnv 2166136261 key) mask

module _ {Bkt : Type 0} where
  pub shard_at-lt :
      (r : Registry Bkt) (key : Bytes) → 0 < length r.shards → shard_at r key < length r.shards
  unfolding shard_at
  shard_at-lt r key h = omega (arith, shard_index-le key (length r.shards - 1))

  -- The index depends on the number of shards alone.
  pub shard_at_same :
      (r q : Registry Bkt) (key : Bytes)
      → length r.shards ≡ length q.shards
      → shard_at r key ≡ shard_at q key
  unfolding shard_at
  shard_at_same r q key h = rw h

  pub length-put_shard :
      (r : Registry Bkt) (i : ℕ) (sh : Shard Bkt)
      → length (put_shard r i sh).shards ≡ length r.shards
  unfolding put_shard
  length-put_shard r i sh = length-set r.shards i sh

  -- After a write to a shard, its keys are looked up in what was written, and the others as before.
  pub lookup-put_shard :
      (r : Registry Bkt) (i : ℕ) (sh : Shard Bkt) (j : Bytes)
      → i < length r.shards
      → lookup (put_shard r i sh) j
        ≡ (if shard_at r j == i then Assoc.lookup j sh.keys else lookup r j)
  unfolding lookup put_shard
  lookup-put_shard r i sh j h =
      rw (shard_at_same (put_shard r i sh) r j (length-put_shard r i sh)) (written (shard_at r j))
    where
      written :
          (n : ℕ)
          → Assoc.lookup j (get_or (put_shard r i sh).shards n empty_shard).keys ≡ (
              if n == i
              then Assoc.lookup j sh.keys
              else Assoc.lookup j (get_or r.shards n empty_shard).keys)
      written n = ground (arith, get_or-set r.shards i n sh empty_shard h)

  pub lookup-shard :
      (r : Registry Bkt) (key j : Bytes)
      → shard_at r j ≡ shard_at r key
      → Assoc.lookup j (shard_for r key).keys ≡ lookup r j
  unfolding lookup shard_for
  lookup-shard r key j e = rw e

  -- A shard in which one key is changed is a registry in which that key is changed.
  pub lookup_update :
      (r : Registry Bkt) (key j : Bytes) (sh : Shard Bkt) (o : Option (Entry Bkt))
      → 0 < length r.shards
      → Assoc.lookup j sh.keys
        ≡ (if bytes_eq key j then o else Assoc.lookup j (shard_for r key).keys)
      → lookup (put_shard r (shard_at r key) sh) j ≡ (if bytes_eq key j then o else lookup r j)
  lookup_update r key j sh o h e =
      lookup-put_shard r (shard_at r key) sh j (shard_at-lt r key h) ∙ merged
    where
      merged :
          (if shard_at r j == shard_at r key then Assoc.lookup j sh.keys else lookup r j)
          ≡ (if bytes_eq key j then o else lookup r j)
      merged = ground (
        arith,
        e,
        bytes_eq_iff key j,
        lookup-shard r key j,
        ==_iff (shard_at r j) (shard_at r key),
        λ (p : key ≡ j). ap (shard_at r) p,
      )
