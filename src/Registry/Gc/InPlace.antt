-- ===== src/Registry/Gc/InPlace.antt =====
-- `sweepInPlace` of registry/gc.go, against a description of it key by key.
use pace.Prelude.{
  ℕ, zero, suc, ◌≡◌, refl, ap, true, false, Bool, Option, none, some, List, [], ◌∷◌, arith, length,
  All, get_or, if◌then◌else◌, if-both,
}
use pace.Prelude.Int.{ℤ, ltb_ℤ}
use pace.Prelude.Bytes.{Bytes, bytes_eq, bytes_eq_iff}
use pace.Prelude.Assoc
use pace.Prelude.Assoc.{Assoc, Unique}
use pace.Registry.{BucketApi, Registry, Shard, Entry, empty_shard, shard_at, shard_for, lookup}
use pace.Registry.Gc.{sweep_in_place, sweep_keys, sweep_one, sweep_shards, lowered, Note}
use pace.Registry.Population.{IsShard, IsValid}
use pace.Registry.Preserve.{shards-report_all}

module _ {Bkt : Type 0} where
  -- What a sweep is to leave of a key.
  abbrev pub fresh_entry : ℤ → Option (Entry Bkt) → Option (Entry Bkt)
  fresh_entry cutoff none = none
  fresh_entry cutoff (some e) = if ltb_ℤ e.last_used cutoff then none else some e

module _ (api : BucketApi) where
  open api use {Bkt, Tok}

  pub lookup-sweep_keys :
      (notify : Bool) (now cutoff : ℤ) (live : ℕ) (m : Assoc (Entry Bkt)) (k : Bytes)
      → Unique m
      → Assoc.lookup k (sweep_keys api notify now cutoff live m).keys
        ≡ fresh_entry cutoff (Assoc.lookup k m)
  unfolding sweep_keys Assoc.lookup
  lookup-sweep_keys notify now cutoff live [] k u = refl
  lookup-sweep_keys notify now cutoff live ((j, e) ∷ m) k u =
      go (ltb_ℤ e.last_used cutoff) refl
        (lookup-sweep_keys notify now cutoff (lowered api (ltb_ℤ e.last_used cutoff) live) m k u.1)
    where
      go :
          (gone : Bool)
          → ltb_ℤ e.last_used cutoff ≡ gone
          → Assoc.lookup k (sweep_keys api notify now cutoff (lowered api gone live) m).keys
            ≡ fresh_entry cutoff (Assoc.lookup k m)
          → Assoc.lookup k
              (sweep_one api gone notify now j e
                (sweep_keys api notify now cutoff (lowered api gone live) m)).keys
            ≡ fresh_entry cutoff (if bytes_eq j k then some e else Assoc.lookup k m)
      go true q h =
          ground (arith, bytes_eq_iff j k, h, q, u.0, λ (n : j ≡ k). ap (λ i. Assoc.lookup i m) n)
      go false q h = ground (arith, h, q)

  get_or-sweep_shards :
      (notify : Bool) (now cutoff : ℤ) (shs : List (Shard Bkt)) (i : ℕ) (k : Bytes)
      → All IsShard shs
      → Assoc.lookup k (get_or (sweep_shards api notify now cutoff shs).shards i empty_shard).keys
        ≡ fresh_entry cutoff (Assoc.lookup k (get_or shs i empty_shard).keys)
  unfolding sweep_shards Assoc.lookup
  get_or-sweep_shards notify now cutoff [] i k v = refl
  get_or-sweep_shards notify now cutoff (sh ∷ shs) zero k v =
      lookup-sweep_keys notify now cutoff sh.live sh.keys k v.0.unique
  get_or-sweep_shards notify now cutoff (sh ∷ shs) (suc i) k v =
      get_or-sweep_shards notify now cutoff shs i k v.1

  length-sweep_shards :
      (notify : Bool) (now cutoff : ℤ) (shs : List (Shard Bkt))
      → length (sweep_shards api notify now cutoff shs).shards ≡ length shs
  unfolding sweep_shards
  length-sweep_shards notify now cutoff [] = refl
  length-sweep_shards notify now cutoff (sh ∷ shs) =
      ap suc (length-sweep_shards notify now cutoff shs)

  lookup-swept :
      (r q : Registry Bkt) (notify : Bool) (now cutoff : ℤ) (k : Bytes)
      → IsValid r
      → q.shards ≡ (sweep_shards api notify now cutoff r.shards).shards
      → lookup q k ≡ fresh_entry cutoff (lookup r k)
  unfolding lookup shard_for shard_at
  lookup-swept r q notify now cutoff k v e =
      rw (e, length-sweep_shards notify now cutoff r.shards)
        (get_or-sweep_shards notify now cutoff r.shards (shard_at r k) k v.shards_valid)

  -- Without a store, a sweep of a well-formed registry removes exactly the keys whose last use is
  -- before the cutoff, and leaves every other entry as it was, whether anybody listens or not.
  lookup-sweep_in_place :
      (r : Registry Bkt) (now cutoff : ℤ) (notify : Bool) (k : Bytes)
      → IsValid r
      → lookup (sweep_in_place api r now cutoff notify).0 k ≡ fresh_entry cutoff (lookup r k)
  unfolding sweep_in_place
  lookup-sweep_in_place r now cutoff notify k v =
      let d = sweep_shards api notify now cutoff r.shards in
      let swept : Registry Bkt = record r { shards = d.shards } in
      if-both {A = Registry Bkt × List (Note Tok)}
        (λ m. lookup m.0 k ≡ fresh_entry cutoff (lookup r k)) notify _ _
        (lookup-swept r _ notify now cutoff k v (shards-report_all swept d.told))
        (lookup-swept r _ notify now cutoff k v refl)
