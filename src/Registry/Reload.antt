-- ===== src/Registry/Reload.antt =====
-- `Reload` and `ReloadKey` of registry/registry.go: which entries get a new quota.
use pace.Prelude.{
  ℕ, zero, suc, ◌+◌, ◌≡◌, refl, ap, Option, none, some, List, [], ◌∷◌, arith, length, All, get_or,
}
use pace.Prelude.Int.{ℤ}
use pace.Prelude.Bytes.{Bytes, bytes_eq_iff}
use pace.Prelude.Assoc
use pace.Prelude.Assoc.{Assoc, Unique}
use pace.Registry.{
  BucketApi, Registry, Shard, Entry, empty_shard, shard_at, shard_for, put_shard, reload,
  reload_shards, reload_keys, lookup, reload_key, reload_if, through, requote,
}
use pace.Registry.Population.{IsShard, IsValid, shard_for-IsShard, put_shard-IsValid}

module _ {Bkt : Type 0} where
  -- The same keys, in the same order.
  abbrev IsSimilar : Assoc (Entry Bkt) → Assoc (Entry Bkt) → Type 0
  IsSimilar m m' =
      (length m' ≡ length m)
      × (Unique m → Unique m')
      × ((k : Bytes) → Assoc.lookup k m ≡ none → Assoc.lookup k m' ≡ none)

  cons-IsSimilar :
      (k : Bytes) (e e' : Entry Bkt) (m m' : Assoc (Entry Bkt))
      → IsSimilar m m'
      → IsSimilar ((k, e) ∷ m) ((k, e') ∷ m')
  unfolding Assoc.lookup
  cons-IsSimilar k e e' m m' s =
      (omega (arith, s.0), λ u. (s.2 k u.0, s.1 u.1), λ j p. ground (arith, s.2 j))

  similar-IsShard :
      (sh : Shard Bkt) (m : Assoc (Entry Bkt))
      → IsShard sh
      → IsSimilar sh.keys m
      → IsShard (record sh { keys = m })
  similar-IsShard sh m v s = record {
    unique = s.1 v.unique;
    counted = omega (arith, v.counted, s.0);
  }

  through-IsSimilar :
      (id : ℕ) (f : Entry Bkt → Entry Bkt) (m : Assoc (Entry Bkt)) → IsSimilar m (through id f m)
  through-IsSimilar id f [] = (refl, λ u. u, λ k p. p)
  through-IsSimilar id f ((k, e) ∷ m) =
      cons-IsSimilar k e _ m (through id f m) (through-IsSimilar id f m)

  -- A write through a pointer keeps the registry well-formed.
  pub write-IsValid :
      (r : Registry Bkt) (key : Bytes) (id : ℕ) (f : Entry Bkt → Entry Bkt)
      → IsValid r
      → IsValid (
          put_shard r
            (shard_at r key)
            (record (shard_for r key) { keys = through id f (shard_for r key).keys }))
  write-IsValid r key id f v =
      let sh = shard_for r key in
      put_shard-IsValid r (shard_at r key) _ v
        (similar-IsShard sh _ (shard_for-IsShard r key v) (through-IsSimilar id f sh.keys))

module _ (api : BucketApi) where
  open api use {Bkt, Quo}

  reload_keys-IsSimilar :
      (clock : ℕ → ℤ) (q : Bytes → Quo) (n : ℕ) (m : Assoc (Entry Bkt))
      → IsSimilar m (reload_keys api clock q n m)
  reload_keys-IsSimilar clock q n [] = (refl, λ u. u, λ k p. p)
  reload_keys-IsSimilar clock q n ((k, e) ∷ m) =
      cons-IsSimilar k e _ m (reload_keys api clock q (n + 1) m)
        (reload_keys-IsSimilar clock q (n + 1) m)

  pub reload_keys-IsShard :
      (clock : ℕ → ℤ) (q : Bytes → Quo) (sh : Shard Bkt)
      → IsShard sh
      → IsShard (record sh { keys = reload_keys api clock q 0 sh.keys })
  reload_keys-IsShard clock q sh v =
      similar-IsShard sh _ v (reload_keys-IsSimilar clock q 0 sh.keys)

  reload_shards-AreShards :
      (clock : ℕ → ℤ) (q : Bytes → Quo) (n : ℕ) (shs : List (Shard Bkt))
      → All IsShard shs
      → All IsShard (reload_shards api clock q n shs)
        × (length (reload_shards api clock q n shs) ≡ length shs)
  reload_shards-AreShards clock q n [] v = (tt, refl)
  reload_shards-AreShards clock q n (sh ∷ shs) v =
      let rest = reload_shards-AreShards clock q (n + length sh.keys) shs v.1 in
      ((similar-IsShard sh _ v.0 (reload_keys-IsSimilar clock q n sh.keys), rest.0), ap suc rest.1)

  reload-IsValid :
      (r : Registry Bkt) (clock : ℕ → ℤ) (q : Bytes → Quo)
      → IsValid r
      → IsValid (reload api r clock q)
  unfolding reload
  reload-IsValid r clock q v =
      let shs = reload_shards-AreShards clock q 0 r.shards v.shards_valid in
      record { sharded = omega (arith, v.sharded, shs.1); shards_valid = shs.0 }

  pub reload_key-IsValid :
      (r : Registry Bkt) (key : Bytes) (now : ℤ) (q : Bytes → Quo)
      → IsValid r
      → IsValid (reload_key api r key now q).0
  unfolding reload_key
  reload_key-IsValid r key now q v = by_lookup (lookup r key)
    where
      by_lookup : (o : Option (Entry Bkt)) → IsValid (reload_if api r key now q o).0
      by_lookup none = v
      by_lookup (some e) = write-IsValid r key e.id (requote api now (q key)) v

  abbrev pub requoted : ℤ → Quo → Option (Entry Bkt) → Option (Entry Bkt)
  requoted now q none = none
  requoted now q (some e) = some (requote api now q e)

  pub lookup-reload_keys :
      (now : ℤ) (q : Bytes → Quo) (n : ℕ) (m : Assoc (Entry Bkt)) (k : Bytes)
      → Assoc.lookup k (reload_keys api (λ n. now) q n m) ≡ requoted now (q k) (Assoc.lookup k m)
  unfolding Assoc.lookup
  lookup-reload_keys now q n [] k = refl
  lookup-reload_keys now q n ((j, e) ∷ m) k =
      ground (arith, bytes_eq_iff j k, lookup-reload_keys now q (n + 1) m k, λ (p : j ≡ k). ap q p)

  get_or-reload_shards :
      (now : ℤ) (q : Bytes → Quo) (n : ℕ) (shs : List (Shard Bkt)) (i : ℕ) (k : Bytes)
      → Assoc.lookup k (get_or (reload_shards api (λ n. now) q n shs) i empty_shard).keys
        ≡ requoted now (q k) (Assoc.lookup k (get_or shs i empty_shard).keys)
  unfolding Assoc.lookup
  get_or-reload_shards now q n [] i k = refl
  get_or-reload_shards now q n (sh ∷ shs) zero k = lookup-reload_keys now q n sh.keys k
  get_or-reload_shards now q n (sh ∷ shs) (suc i) k =
      get_or-reload_shards now q (n + length sh.keys) shs i k

  length-reload_shards :
      (clock : ℕ → ℤ) (q : Bytes → Quo) (n : ℕ) (shs : List (Shard Bkt))
      → length (reload_shards api clock q n shs) ≡ length shs
  length-reload_shards clock q n [] = refl
  length-reload_shards clock q n (sh ∷ shs) =
      ap suc (length-reload_shards clock q (n + length sh.keys) shs)

  -- A reload at one instant gives every key in memory the quota that the owner now has for it, and
  -- leaves its token count's bucket, its time of last use and the set of keys otherwise alone.
  pub lookup-reload :
      (r : Registry Bkt) (now : ℤ) (q : Bytes → Quo) (k : Bytes)
      → lookup (reload api r (λ n. now) q) k ≡ requoted now (q k) (lookup r k)
  unfolding reload lookup shard_for shard_at
  lookup-reload r now q k =
      rw (length-reload_shards (λ n. now) q 0 r.shards)
        (get_or-reload_shards now q 0 r.shards (shard_at r k) k)
