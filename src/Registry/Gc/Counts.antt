-- ===== src/Registry/Gc/Counts.antt =====
-- What registry/gc.go counts and reports.
use pace.Prelude.{
  suc, ◌+◌, ◌<◌, ◌%◌, ◌^◌, ◌≡◌, refl, ap, ◌∙◌, true, false, Bool, Option, none, some, List, [], ◌∷◌,
  ◌++◌, arith, length, length-append, if◌then◌else◌, if-both,
}
use pace.Prelude.Int.{ℤ}
use pace.Prelude.Bytes.{Bytes, bytes_eq}
use pace.Prelude.Assoc.{Assoc, lookup-delete}
use pace.Prelude.Word.{add_int64}
use pace.Registry.{
  BucketApi, Registry, Shard, Entry, Eviction, eviction_of, explicit, Snapshot, snapshot, shard_at,
  shard_for, lookup, keys, live_total,
}
use pace.Registry.Gc.{
  report_all, drop_shards, drop_all, shutdown_evictions, saved, evicted, evict, evict_if,
  after_save, Evicted, without_key, drop_key,
}
use pace.Registry.Population.{key_total}
use pace.Registry.Preserve.{shards-report_all}
use pace.Registry.Shards.{lookup_update}

module _ {Bkt Tok : Type 0} where
  pub report_all_counts :
      (r : Registry Bkt) (es : List (Eviction Tok))
      → ((report_all r es).0.evictions % 2 ^ 64 ≡ (r.evictions + length es) % 2 ^ 64)
        × (length (report_all r es).1 ≡ length es)
  unfolding report_all add_int64
  report_all_counts r [] = (omega arith, refl)
  report_all_counts r (e ∷ es) =
      let rest = report_all_counts (record r { evictions = add_int64 r.evictions 1 }) es in
      (omega (arith, rest.0), ap suc rest.1)

module _ (api : BucketApi) where
  open api use {Bkt, Tok}

  length-shutdown_evictions :
      (now : ℤ) (m : Assoc (Entry Bkt)) → length (shutdown_evictions api now m) ≡ length m
  length-shutdown_evictions now [] = refl
  length-shutdown_evictions now ((k, e) ∷ m) = ap suc (length-shutdown_evictions now m)

  drop_shards_counts :
      (now : ℤ) (notify : Bool) (shs : List (Shard Bkt))
      → ((drop_shards api notify now shs).dropped ≡ key_total shs)
        × (length (drop_shards api notify now shs).told ≡ (if notify then key_total shs else 0))
        × (live_total (drop_shards api notify now shs).shards ≡ 0)
  unfolding drop_shards add_int64
  drop_shards_counts now notify [] = (refl, if-both (λ n. 0 ≡ n) notify _ _ refl refl, refl)
  drop_shards_counts now notify (sh ∷ shs) =
      let rest = drop_shards_counts now notify shs in
      (omega (arith, rest.0), told notify rest.1, omega (arith, rest.2))
    where
      told :
          (b : Bool)
          → length (drop_shards api b now shs).told ≡ (if b then key_total shs else 0)
          → length (
              (if b then shutdown_evictions api now sh.keys else [])
              ++ (drop_shards api b now shs).told)
            ≡ (if b then key_total (sh ∷ shs) else 0)
      told true h = omega (
        arith,
        h,
        length-shutdown_evictions now sh.keys,
        length-append (shutdown_evictions api now sh.keys) (drop_shards api true now shs).told,
      )
      told false h = h

  -- Dropping everything leaves a population of 0, counts every key that was in a map as one eviction,
  -- and reports each of them when somebody listens, none otherwise: the count is the same either way.
  pub drop_all_counts :
      (r : Registry Bkt) (now : ℤ) (notify : Bool)
      → (keys (drop_all api r now notify).0 ≡ 0)
        × ((drop_all api r now notify).0.evictions % 2 ^ 64
            ≡ (r.evictions + key_total r.shards) % 2 ^ 64)
        × (length (drop_all api r now notify).1 ≡ (if notify then key_total r.shards else 0))
  unfolding drop_all keys add_int64
  drop_all_counts r now true =
      let d = drop_shards api true now r.shards in
      let n = drop_shards_counts now true r.shards in
      let emptied : Registry Bkt = record r { shards = d.shards } in
      let told = report_all_counts emptied d.told in
      (rw (shards-report_all emptied d.told) n.2, omega (arith, told.0, n.1), told.1 ∙ n.1)
  drop_all_counts r now false =
      let n = drop_shards_counts now false r.shards in (n.2, omega (arith, n.0), refl)

  -- What an eviction is to return, given the snapshot of the key, whether there is a store, and the
  -- error that it answers with.
  abbrev pub Outcome : Registry Bkt → Snapshot Tok → Bool → Option ℤ → Evicted api → Type 0
  Outcome r s true (some e) out =
      (out.error ≡ some e) × (out.notes ≡ saved s ∷ []) × (out.registry.evictions ≡ r.evictions)
  Outcome r s true none out =
      (out.error ≡ none)
      × (out.notes ≡ saved s ∷ evicted (eviction_of s explicit) ∷ [])
      × (out.registry.evictions ≡ add_int64 r.evictions 1)
  Outcome r s false answer out =
      (out.error ≡ none)
      × (out.notes ≡ evicted (eviction_of s explicit) ∷ [])
      × (out.registry.evictions ≡ add_int64 r.evictions 1)

  pub gone :
      (r : Registry Bkt) (key j : Bytes)
      → 0 < length r.shards
      → lookup (without_key api r key) j ≡ (if bytes_eq key j then none else lookup r j)
  unfolding without_key drop_key
  gone r key j h = lookup_update r key j _ none h (lookup-delete key j (shard_for r key).keys)

  module _ (r : Registry Bkt) (key : Bytes) (e : Entry Bkt) where
    -- What evicting a key with the entry `e` is to do.
    abbrev pub Evicts : Snapshot Tok → Bool → Option ℤ → Evicted api → Type 0
    Evicts s persists answer out =
        (out.had ≡ true)
        × ((j : Bytes) → lookup out.registry j ≡ (if bytes_eq key j then none else lookup r j))
        × Outcome r s persists answer out

    after_save-Evicts :
        (s : Snapshot Tok) (answer : Option ℤ)
        → 0 < length r.shards
        → Evicts s true answer (after_save api (without_key api r key) s (saved s ∷ []) answer)
    unfolding report_all without_key lookup shard_for shard_at
    after_save-Evicts s (some x) h = (refl, λ j. gone r key j h, (refl, refl, refl))
    after_save-Evicts s none h = (refl, λ j. gone r key j h, (refl, refl, refl))

    evict_if-Evicts :
        (now : ℤ) (persists : Bool) (save : Snapshot Tok → Option ℤ)
        → 0 < length r.shards
        → Evicts
            (snapshot api key e now)
            persists
            (save (snapshot api key e now))
            (evict_if api r key now persists save (some e))
    unfolding report_all without_key lookup shard_for shard_at
    evict_if-Evicts now true save h =
        after_save-Evicts (snapshot api key e now) (save (snapshot api key e now)) h
    evict_if-Evicts now false save h = (refl, λ j. gone r key j h, (refl, refl, refl))

  -- What evicting a key is to do, by the entry that the key has.
  abbrev pub EvictsAny :
      Registry Bkt
      → Bytes
      → ℤ
      → Bool
      → (Snapshot Tok → Option ℤ)
      → Option (Entry Bkt)
      → Evicted api
      → Type 0
  EvictsAny r key now persists save none out =
      out ≡ record { registry = r; notes = []; had = false; error = none }
  EvictsAny r key now persists save (some e) out =
      Evicts r key e (snapshot api key e now) persists (save (snapshot api key e now)) out

  -- Evicting a key that is in memory removes it and no other key, on every path. Its state is saved
  -- before the eviction is announced; when the save fails the error is returned and the eviction is
  -- neither announced nor counted, although the key is gone. A key that is not there changes nothing.
  pub evict_outcome :
      (r : Registry Bkt) (key : Bytes) (now : ℤ) (persists : Bool) (save : Snapshot Tok → Option ℤ)
      → 0 < length r.shards
      → EvictsAny r key now persists save (lookup r key) (evict api r key now persists save)
  unfolding evict
  evict_outcome r key now persists save h = by_lookup (lookup r key)
    where
      by_lookup :
          (o : Option (Entry Bkt))
          → EvictsAny r key now persists save o (evict_if api r key now persists save o)
      by_lookup none = refl
      by_lookup (some e) = evict_if-Evicts r key e now persists save h
