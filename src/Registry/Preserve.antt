-- ===== src/Registry/Preserve.antt =====
-- The operations of registry/registry.go and registry/gc.go on well-formed registries.
pub mod Sweeps
use pace.Prelude.{
  ℕ, suc, ◌+◌, ◌%◌, ◌^◌, ◌≡◌, refl, sym, ap, true, false, Bool, Option, none, some, List, [], ◌∷◌,
  arith, length, All, All-get_or, get_or, if◌then◌else◌, if-both,
}
use pace.Prelude.Int.{ℤ, ltb_ℤ}
use pace.Prelude.Bytes.{Bytes}
use pace.Prelude.Assoc
use pace.Prelude.Assoc.{Assoc, Unique}
use pace.Prelude.Word.{add_int64}
use pace.Registry.{
  BucketApi, Registry, Shard, Entry, Snapshot, Eviction, empty_shard, shard_at, shard_for,
  put_shard, create_if, create, lookup, snapshot, new_entry,
}
use pace.Registry.Gc.{
  drop_key, Expired, delete_one, delete_expired, Kept, lowered, sweep_one, saved, sweep_keys,
  sweep_shards, sweep_in_place, drop_all, drop_shards, report_all, evict, evict_if, after_save,
  without_key, is_same, idle_eviction, Note, sweep, after_collect, collect,
}
use pace.Registry.Population.{
  IsShard, IsValid, empty_shard-IsShard, shard_for-IsShard, put_shard-IsValid, insert-IsShard,
  drop_key-IsShard,
}

module _ {Bkt : Type 0} where
  -- Only the shards matter.
  pub same_shards : (r q : Registry Bkt) → r.shards ≡ q.shards → IsValid r → IsValid q
  same_shards r q e v = record {
    sharded = rw (← e) v.sharded;
    shards_valid = rw (← e) v.shards_valid;
  }

module _ {Bkt Tok : Type 0} where
  pub shards-report_all :
      (r : Registry Bkt) (es : List (Eviction Tok)) → (report_all r es).0.shards ≡ r.shards
  unfolding report_all
  shards-report_all r [] = refl
  shards-report_all r (e ∷ es) =
      shards-report_all (record r { evictions = add_int64 r.evictions 1 }) es

module _ (api : BucketApi) where
  open api use {Bkt, Quo, Tok}

  pub create-IsValid :
      (r : Registry Bkt) (key : Bytes) (q : Quo) (found : Option (Snapshot Tok)) (now : ℤ)
      → IsValid r
      → IsValid (create api r key q found now).0
  unfolding create
  create-IsValid r key q found now v = by_lookup (Assoc.lookup key (shard_for r key).keys) refl
    where
      e : Entry Bkt
      e = new_entry api r.next_id q found now

      by_lookup :
          (o : Option (Entry Bkt))
          → Assoc.lookup key (shard_for r key).keys ≡ o
          → IsValid (create_if api r key e o).0
      by_lookup (some x) p = v
      by_lookup none p = same_shards (put_shard r (shard_at r key) _) _ refl (
          put_shard-IsValid r (shard_at r key) _ v
            (insert-IsShard (shard_for r key) key e (shard_for-IsShard r key v) p))

  pub without_key-IsValid :
      (r : Registry Bkt) (key : Bytes) (e : Entry Bkt)
      → IsValid r
      → lookup r key ≡ some e
      → IsValid (without_key api r key)
  unfolding without_key lookup
  without_key-IsValid r key e v h =
      put_shard-IsValid r (shard_at r key) _ v
        (drop_key-IsShard (shard_for r key) key e (shard_for-IsShard r key v) h)

  after_save-IsValid :
      (r : Registry Bkt) (s : Snapshot Tok) (notes : List (Note Tok)) (e : Option ℤ)
      → IsValid r
      → IsValid (after_save api r s notes e).registry
  unfolding report_all
  after_save-IsValid r s notes (some e) v = v
  after_save-IsValid r s notes none v = same_shards r _ refl v

  evict-IsValid :
      (r : Registry Bkt) (key : Bytes) (now : ℤ) (persists : Bool) (save : Snapshot Tok → Option ℤ)
      → IsValid r
      → IsValid (evict api r key now persists save).registry
  unfolding evict
  evict-IsValid r key now persists save v = by_lookup (lookup r key) refl persists
    where
      by_lookup :
          (o : Option (Entry Bkt))
          → lookup r key ≡ o
          → (p : Bool) → IsValid (evict_if api r key now p save o).registry
      by_lookup none h p = v
      by_lookup (some e) h true =
          after_save-IsValid (without_key api r key) (snapshot api key e now)
            (saved (snapshot api key e now) ∷ []) (save (snapshot api key e now))
            (without_key-IsValid r key e v h)
      by_lookup (some e) h false =
          after_save-IsValid (without_key api r key) (snapshot api key e now) [] none
            (without_key-IsValid r key e v h)

  drop_shards-AreShards :
      (notify : Bool) (now : ℤ) (shs : List (Shard Bkt))
      → All IsShard (drop_shards api notify now shs).shards
        × (length (drop_shards api notify now shs).shards ≡ length shs)
  unfolding drop_shards
  drop_shards-AreShards notify now [] = (tt, refl)
  drop_shards-AreShards notify now (sh ∷ shs) =
      let rest = drop_shards-AreShards notify now shs in
      ((empty_shard-IsShard, rest.0), ap suc rest.1)

  drop_all-IsValid :
      (r : Registry Bkt) (now : ℤ) (notify : Bool)
      → IsValid r
      → IsValid (drop_all api r now notify).0
  unfolding drop_all
  drop_all-IsValid r now notify v =
      let d = drop_shards api notify now r.shards in
      let emptied : Registry Bkt = record r { shards = d.shards } in
      let dropped = drop_shards-AreShards notify now r.shards in
      let h : IsValid emptied = record {
        sharded = omega (arith, v.sharded, dropped.1);
        shards_valid = dropped.0;
      } in
      if-both {A = Registry Bkt × List (Note Tok)} (λ m. IsValid m.0) notify _ _
        (same_shards emptied _ (sym (shards-report_all emptied d.told)) h)
        (same_shards emptied _ refl h)

  pub delete_one-IsValid :
      (r : Registry Bkt) (x : Expired api) → IsValid r → IsValid (delete_one api r x).0
  unfolding delete_one
  delete_one-IsValid r x v = by_lookup (Assoc.lookup x.snap.key sh.keys) refl
    where
      sh : Shard Bkt
      sh = get_or r.shards x.shard empty_shard

      by_lookup :
          (o : Option (Entry Bkt))
          → Assoc.lookup x.snap.key sh.keys ≡ o
          → IsValid
              (if◌then◌else◌ {A = Registry Bkt × List (Eviction Tok)}
                (is_same api x o)
                (put_shard r x.shard (drop_key sh x.snap.key), idle_eviction api x ∷ [])
                (r, [])).0
      by_lookup none h = v
      by_lookup (some e) h =
          if-both (λ (m : Registry Bkt × List (Eviction Tok)). IsValid m.0) (is_same api x (some e))
            _ _
            (put_shard-IsValid r x.shard _ v (
              drop_key-IsShard sh x.snap.key e
                (All-get_or IsShard r.shards x.shard empty_shard v.shards_valid empty_shard-IsShard)
                h))
            v

  pub delete_expired-IsValid :
      (r : Registry Bkt) (xs : List (Expired api)) → IsValid r → IsValid (delete_expired api r xs).0
  unfolding delete_expired
  delete_expired-IsValid r [] v = v
  delete_expired-IsValid r (x ∷ xs) v =
      delete_expired-IsValid (delete_one api r x).0 xs (delete_one-IsValid r x v)
