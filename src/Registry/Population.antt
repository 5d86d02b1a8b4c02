-- ===== src/Registry/Population.antt =====
-- The well-formed states of registry/registry.go and registry/gc.go: no key twice in a shard, and the
-- atomic count of each shard is the number of its keys.
use pace.Prelude.{
  ℕ, ◌+◌, ◌%◌, ◌^◌, ◌<◌, ◌≡◌, none, some, List, [], ◌∷◌, arith, length, All, All-get_or, All-set,
  length-set,
}
use pace.Prelude.Bytes.{Bytes}
use pace.Prelude.Assoc
use pace.Prelude.Assoc.{Assoc, Unique, Unique-insert, Unique-delete, length-insert, length-delete}
use pace.Prelude.Word.{add_int64}
use pace.Registry.{
  Registry, Shard, Entry, empty_shard, shard_at, shard_for, put_shard, keys, live_total,
}
use pace.Registry.Gc.{drop_key}

module _ {Bkt : Type 0} where
  pub record IsShard (sh : Shard Bkt) : Type 0 where
    pub unique : Unique sh.keys
    pub counted : sh.live ≡ length sh.keys % 2 ^ 64

  pub record IsValid (r : Registry Bkt) : Type 0 where
    pub sharded : 0 < length r.shards
    pub shards_valid : All IsShard r.shards

  pub empty_shard-IsShard : IsShard empty_shard
  empty_shard-IsShard = record { unique = tt; counted = omega arith }

  pub shard_for-IsShard : (r : Registry Bkt) (key : Bytes) → IsValid r → IsShard (shard_for r key)
  unfolding shard_for
  shard_for-IsShard r key v =
      All-get_or IsShard r.shards (shard_at r key) empty_shard v.shards_valid empty_shard-IsShard

  pub put_shard-IsValid :
      (r : Registry Bkt) (i : ℕ) (sh : Shard Bkt)
      → IsValid r
      → IsShard sh
      → IsValid (put_shard r i sh)
  unfolding put_shard
  put_shard-IsValid r i sh v h = record {
    sharded = omega (arith, v.sharded, length-set r.shards i sh);
    shards_valid = All-set IsShard r.shards i sh v.shards_valid h;
  }

  pub insert-IsShard :
      (sh : Shard Bkt) (key : Bytes) (e : Entry Bkt)
      → IsShard sh
      → Assoc.lookup key sh.keys ≡ none
      → IsShard (record { keys = Assoc.insert key e sh.keys; live = add_int64 sh.live 1 })
  unfolding add_int64
  insert-IsShard sh key e v h = record {
    unique = Unique-insert key e sh.keys v.unique;
    counted = omega (arith, v.counted, length-insert key e sh.keys h);
  }

  pub drop_key-IsShard :
      (sh : Shard Bkt) (key : Bytes) (e : Entry Bkt)
      → IsShard sh
      → Assoc.lookup key sh.keys ≡ some e
      → IsShard (drop_key sh key)
  unfolding drop_key add_int64
  drop_key-IsShard sh key e v h = record {
    unique = Unique-delete key sh.keys v.unique;
    counted = omega (arith, v.counted, length-delete key e sh.keys v.unique h);
  }

  abbrev pub key_total : List (Shard Bkt) → ℕ
  key_total [] = 0
  key_total (sh ∷ shs) = length sh.keys + key_total shs

  live_total-key_total :
      (shs : List (Shard Bkt)) → All IsShard shs → live_total shs ≡ key_total shs % 2 ^ 64
  unfolding add_int64
  live_total-key_total [] h = omega arith
  live_total-key_total (sh ∷ shs) h = omega (arith, h.0.counted, live_total-key_total shs h.1)

  -- The gauge that adds up the counts of the shards is the number of keys in the maps.
  pub keys-key_total : (r : Registry Bkt) → IsValid r → keys r ≡ key_total r.shards % 2 ^ 64
  unfolding keys
  keys-key_total r v = live_total-key_total r.shards v.shards_valid
