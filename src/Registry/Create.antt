-- ===== src/Registry/Create.antt =====
-- `GetOrCreate` of registry/registry.go: who gets which entry.
use pace.Prelude.{◌<◌, ◌≡◌, refl, ap, Option, none, some, arith, length, if◌then◌else◌}
use pace.Prelude.Int.{ℤ}
use pace.Prelude.Bytes.{Bytes, bytes_eq, bytes_eq_iff, bytes_eq_refl}
use pace.Prelude.Assoc.{lookup-insert}
use pace.Registry.{
  BucketApi, Registry, Entry, Snapshot, Owner, shard_at, shard_for, lookup, add_entry, create_if,
  found_or, create, new_entry, get_or_create,
}
use pace.Registry.Shards.{lookup_update}

module _ (api : BucketApi) where
  open api use {Bkt, Quo, Tok}

  pub lookup-add_entry :
      (r : Registry Bkt) (key j : Bytes) (e : Entry Bkt)
      → 0 < length r.shards
      → lookup (add_entry api r key e) j ≡ (if bytes_eq key j then some e else lookup r j)
  unfolding add_entry lookup shard_for shard_at
  lookup-add_entry r key j e h =
      lookup_update r key j _ (some e) h (lookup-insert key j e (shard_for r key).keys)

  module _ (r : Registry Bkt) (key j : Bytes) (h : 0 < length r.shards) where
    created :
        (e : Entry Bkt) (o : Option (Entry Bkt))
        → lookup r key ≡ o
        → lookup (create_if api r key e o).0 j
          ≡ (if bytes_eq key j then some (create_if api r key e o).1 else lookup r j)
    created e none p = lookup-add_entry r key j e h
    created e (some old) p = ground (arith, bytes_eq_iff key j, λ (q : key ≡ j). ap (lookup r) q)

    -- The cold path, once it has the lock: its answer is what the key has from then on, an entry
    -- that was there already wins, and no other key changes.
    pub lookup-create :
        (q : Quo) (found : Option (Snapshot Tok)) (now : ℤ)
        → (lookup (create api r key q found now).0 j
            ≡ (if bytes_eq key j then some (create api r key q found now).1 else lookup r j))
          × ((e : Entry Bkt) → lookup r key ≡ some e → (create api r key q found now).1 ≡ e)
    unfolding create lookup
    lookup-create q found now = (
      created (new_entry api r.next_id q found now) (lookup r key) refl,
      λ e p. winner (lookup r key) e p,
    )
      where
        winner :
            (o : Option (Entry Bkt)) (e : Entry Bkt)
            → o ≡ some e
            → (create_if api r key (new_entry api r.next_id q found now) o).1 ≡ e
        winner none e p = cc
        winner (some x) e p = cc

  -- Which entry a caller is to get, by the entry that it finds, or else by the entry that others
  -- have made when it has the lock.
  abbrev pub Wins :
      Registry Bkt → Option (Entry Bkt) → Option (Entry Bkt) → Registry Bkt × Entry Bkt → Type 0
  Wins r (some e) _ out = out ≡ (r, e)
  Wins r none (some e) out = out.1 ≡ e
  Wins r none none out = Unit

  -- Whatever others do while the state is loaded, the caller gets the entry that the key has in the map
  -- when the call's last critical section ends. A key that is in memory is neither loaded nor created
  -- again, and an entry that others create meanwhile wins. The registry has a shard.
  pub lookup-get_or_create :
      (r : Registry Bkt) (key : Bytes) (o : Owner api)
      → 0 < length (o.others r).shards
      → (lookup (get_or_create api r key o).0 key ≡ some (get_or_create api r key o).1)
        × Wins r (lookup r key) (lookup (o.others r) key) (get_or_create api r key o)
  unfolding get_or_create
  lookup-get_or_create r key o h = by_lookup (lookup r key) refl (lookup (o.others r) key) refl
    where
      loaded : Option (Snapshot Tok)
      loaded = if o.persists then o.load key else none

      cold : Registry Bkt × Entry Bkt
      cold = create api (o.others r) key (o.quota_for key) loaded o.now

      by_lookup :
          (found : Option (Entry Bkt))
          → lookup r key ≡ found
          → (theirs : Option (Entry Bkt)) → lookup (o.others r) key ≡ theirs
          → (lookup (found_or api r cold found).0 key ≡ some (found_or api r cold found).1)
            × Wins r found theirs (found_or api r cold found)
      by_lookup (some x) p theirs q = (p, refl)
      by_lookup none p (some e) q =
          let made = lookup-create (o.others r) key key h (o.quota_for key) loaded o.now in
          (rw (bytes_eq_refl key) at (made.0), made.1 e q)
      by_lookup none p none q =
          let made = lookup-create (o.others r) key key h (o.quota_for key) loaded o.now in
          (rw (bytes_eq_refl key) at (made.0), tt)
