-- ===== src/Registry/Owned/Steps.antt =====
-- The calls of registry/registry.go and registry/gc.go keep every entry with its key.
use pace.Prelude.{
  ℕ, ◌+◌, ◌≡◌, refl, sym, subst, Bool, Option, none, some, List, [], ◌∷◌, get_or, inl, inr,
  Bool-cases, if-both, ◌∙◌,
}
use pace.Prelude.Int.{ℤ, ltb_ℤ}
use pace.Prelude.Bytes.{Bytes, bytes_eq}
use pace.Prelude.Assoc
use pace.Prelude.Assoc.{Assoc, lookup-delete}
use pace.Registry.{
  BucketApi, Registry, Entry, Eviction, empty_shard, shard_at, shard_for, lookup, reload_keys,
  reload_key, reload_if, requote,
}
use pace.Registry.Gc.{drop_key, without_key, Expired, delete_one, is_same}
use pace.Registry.Gc.InPlace.{fresh_entry}
use pace.Registry.Population.{IsValid}
use pace.Registry.Owned.{Descends, Shrinks, Descends-refl, put_shard-Shrinks, write-Shrinks}
use pace.Registry.Gc.InPlace.{lookup-sweep_keys}
use pace.Registry.Run.{step, shard, shard-IsShard, evicted_if, evicts, sweeps, drops, reloads}

module _ {Bkt : Type 0} where
  pub Shrinks-refl : (r : Registry Bkt) → Shrinks r r
  Shrinks-refl r = record { same_id = refl; descends = λ k. Descends-refl (lookup r k) }

  -- Only the shards and the ids of a registry matter.
  pub same-Shrinks :
      (r q s : Registry Bkt)
      → s.shards ≡ q.shards
      → s.next_id ≡ q.next_id
      → Shrinks r q
      → Shrinks r s
  unfolding lookup shard_for shard_at
  same-Shrinks r q s e n h = record {
    same_id = h.same_id ∙ sym n;
    descends = λ k. rw e (h.descends k);
  }

  delete-Descends :
      (key k : Bytes) (m : Assoc (Entry Bkt))
      → Descends (Assoc.lookup k m) (Assoc.lookup k (Assoc.delete key m))
  delete-Descends key k m = rw (lookup-delete key k m) (
      if-both (Descends (Assoc.lookup k m)) (bytes_eq key k) _ _ tt
        (Descends-refl (Assoc.lookup k m)))

module _ (api : BucketApi) where
  open api use {Bkt, Quo, Tok}

  pub without_key-Shrinks : (r : Registry Bkt) (key : Bytes) → Shrinks r (without_key api r key)
  unfolding without_key drop_key shard_for
  without_key-Shrinks r key =
      put_shard-Shrinks r (shard_at r key) _ (λ k. delete-Descends key k (shard_for r key).keys)

  pub delete_one-Shrinks : (r : Registry Bkt) (x : Expired api) → Shrinks r (delete_one api r x).0
  unfolding delete_one drop_key
  delete_one-Shrinks r x =
      let sh = get_or r.shards x.shard empty_shard in
      if-both {A = Registry Bkt × List (Eviction Tok)} (λ y. Shrinks r y.0)
        (is_same api x (Assoc.lookup x.snap.key sh.keys)) _ _
        (put_shard-Shrinks r x.shard _ (λ k. delete-Descends x.snap.key k sh.keys)) (Shrinks-refl r)

  fresh_entry-Descends : (cutoff : ℤ) (o : Option (Entry Bkt)) → Descends o (fresh_entry cutoff o)
  fresh_entry-Descends cutoff none = tt
  fresh_entry-Descends cutoff (some e) =
      if-both (Descends (some e)) (ltb_ℤ e.last_used cutoff) _ _ tt refl

  reload_keys-Descends :
      (clock : ℕ → ℤ) (q : Bytes → Quo) (n : ℕ) (m : Assoc (Entry Bkt)) (k : Bytes)
      → Descends (Assoc.lookup k m) (Assoc.lookup k (reload_keys api clock q n m))
  unfolding Assoc.lookup
  reload_keys-Descends clock q n [] k = tt
  reload_keys-Descends clock q n ((j, e) ∷ m) k = elim (Bool-cases (bytes_eq j k)) [
    | inl p ↦ rw p refl
    | inr p ↦ rw p (reload_keys-Descends clock q (n + 1) m k)
  ]

  pub reload_key-Shrinks :
      (r : Registry Bkt) (key : Bytes) (now : ℤ) (q : Bytes → Quo)
      → Shrinks r (reload_key api r key now q).0
  unfolding reload_key
  reload_key-Shrinks r key now q = by_lookup (lookup r key)
    where
      by_lookup : (o : Option (Entry Bkt)) → Shrinks r (reload_if api r key now q o).0
      by_lookup none = Shrinks-refl r
      by_lookup (some e) = write-Shrinks r key e.id (requote api now (q key)) (λ x. refl)

  pub evicts-Shrinks : (r : Registry Bkt) (key : Bytes) → Shrinks r (step api r (evicts key))
  unfolding step
  evicts-Shrinks r key = by_lookup (lookup r key)
    where
      by_lookup : (o : Option (Entry Bkt)) → Shrinks r (evicted_if api r key o)
      by_lookup none = Shrinks-refl r
      by_lookup (some e) = without_key-Shrinks r key

  pub sweeps-Shrinks :
      (r : Registry Bkt) (i : ℕ) (now cutoff : ℤ) (notify : Bool)
      → IsValid r
      → Shrinks r (step api r (sweeps i now cutoff notify))
  unfolding step
  sweeps-Shrinks r i now cutoff notify v =
      let sh = shard api r i in
      put_shard-Shrinks r i _ (λ k.
        subst (Descends (Assoc.lookup k sh.keys))
          (sym (
            lookup-sweep_keys api notify now cutoff sh.live sh.keys k
              (shard-IsShard api r i v).unique))
          (fresh_entry-Descends cutoff (Assoc.lookup k sh.keys)))

  pub drops-Shrinks : (r : Registry Bkt) (i : ℕ) → Shrinks r (step api r (drops i))
  unfolding step Assoc.lookup
  drops-Shrinks r i = put_shard-Shrinks r i _ (λ k. tt)

  pub reloads-Shrinks :
      (r : Registry Bkt) (i : ℕ) (clock : ℕ → ℤ) (q : Bytes → Quo)
      → Shrinks r (step api r (reloads i clock q))
  unfolding step
  reloads-Shrinks r i clock q =
      put_shard-Shrinks r i _ (λ k. reload_keys-Descends clock q 0 (shard api r i).keys k)
