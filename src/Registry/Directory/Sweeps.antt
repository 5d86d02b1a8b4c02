-- ===== src/Registry/Directory/Sweeps.antt =====
-- What registry/registry.go and registry/gc.go do to all the keys, in the directory.
use mathlib.Core.Path.{fun_ext}
use pace.Prelude.Int.{ℤ}
use pace.Prelude.Bytes.{Bytes}
use pace.Prelude.Assoc
use pace.Registry.{
  BucketApi, Registry, Shard, Eviction, empty_shard, lookup, shard_at, shard_for, put_shard,
}
use pace.Registry.Gc.{Expired, is_same, idle_eviction, drop_key, delete_one, without_key}
use pace.Registry.Gc.Counts.{gone}
use pace.Registry.Population.{IsValid}
use pace.Prelude.{
  ℕ, ◌<◌, ◌==◌, ==_iff, ◌≡◌, refl, sym, subst, ap, ◌∙◌, Bool, true, false, Option, none, List, [],
  ◌∷◌, arith, length, get_or, if◌then◌else◌, inl, inr, Bool-cases,
}
use pace.Registry.{Entry, reload_keys}
use pace.Registry.Directory.{Directory, put, act, in_group, Shows}
use pace.Registry.Gc.InPlace.{fresh_entry, lookup-sweep_keys}
use pace.Registry.Reload.{requoted, lookup-reload_keys}
use pace.Registry.Shards.{lookup-put_shard}
use pace.Registry.Run.{step, shard, shard-IsShard, sweeps, drops, reloads}

module _ (api : BucketApi) where
  open api use {Bkt, Quo, Tok}

  deleted : Registry Bkt → Expired api → Bool → Registry Bkt × List (Eviction Tok)
  deleted r x true = (without_key api r x.snap.key, idle_eviction api x ∷ [])
  deleted r x false = (r, [])

  delete_one_filed :
      (r : Registry Bkt) (x : Expired api)
      → x.shard ≡ shard_at r x.snap.key
      → delete_one api r x ≡ deleted r x (is_same api x (lookup r x.snap.key))
  unfolding delete_one lookup shard_for deleted without_key
  delete_one_filed r x h = ap in_shard h ∙ by_same (is_same api x (lookup r x.snap.key))
    where
      in_shard : ℕ → Registry Bkt × List (Eviction Tok)
      in_shard i =
          let sh = get_or r.shards i empty_shard in
          if is_same api x (Assoc.lookup x.snap.key sh.keys)
          then (put_shard r i (drop_key sh x.snap.key), idle_eviction api x ∷ [])
          else (r, [])

      by_same :
          (b : Bool)
          → ◌≡◌ {A = Registry Bkt × List (Eviction Tok)}
              (if b then (without_key api r x.snap.key, idle_eviction api x ∷ []) else (r, []))
              (deleted r x b)
      by_same true = refl
      by_same false = refl

  module _ (r : Registry Bkt) (d : Directory Bkt) (v : IsValid r) (s : Shows r d)
      (place : Bytes → ℕ) (placed : (k : Bytes) → shard_at r k ≡ place k) where
    here : (i : ℕ) (k : Bytes) → shard_at r k ≡ i → Assoc.lookup k (shard api r i).keys ≡ lookup r k
    unfolding lookup shard_for
    here i k p = ap (λ n. Assoc.lookup k (shard api r n).keys) (sym p)

    -- A shard is written by what is right for each of its keys.
    walked :
        (i : ℕ) (sh : Shard Bkt) (f : Bytes → Option (Entry Bkt) → Option (Entry Bkt))
        → i < length r.shards
        → ((k : Bytes) → Assoc.lookup k sh.keys ≡ f k (Assoc.lookup k (shard api r i).keys))
        → Shows (put_shard r i sh) (in_group api place i f d)
    unfolding put_shard
    walked i sh f h e = record { entries = λ k. lookup-put_shard r i sh k h ∙ moved k; ids = s.ids }
      where
        moved :
            (k : Bytes)
            → (if shard_at r k == i then Assoc.lookup k sh.keys else lookup r k)
              ≡ (if place k == i then f k (d.entry k) else d.entry k)
        moved k = elim (Bool-cases (place k == i)) [
          | inl p ↦
              rw (placed k, p)
                (e k ∙ ap (f k) (here i k (placed k ∙ (==_iff (place k) i).0 p) ∙ s.entries k))
          | inr p ↦ rw (placed k, p) (s.entries k)
        ]

    pub reload-Shows :
        (i : ℕ) (clock : ℕ → ℤ) (q : Bytes → Quo)
        → i < length r.shards
        → ((n : ℕ) → clock n ≡ clock 0)
        → Shows (step api r (reloads i clock q)) (act api place d (reloads i clock q))
    unfolding step
    reload-Shows i clock q l h =
        walked i _ (λ k. requoted api (clock 0) (q k)) l
          (λ k.
            ap (λ c. Assoc.lookup k (reload_keys api c q 0 (shard api r i).keys)) (fun_ext h)
            ∙ lookup-reload_keys api (clock 0) q 0 (shard api r i).keys k)

    pub sweep-Shows :
        (i : ℕ) (now cutoff : ℤ) (notify : Bool)
        → i < length r.shards
        → Shows
            (step api r (sweeps i now cutoff notify))
            (act api place d (sweeps i now cutoff notify))
    unfolding step
    sweep-Shows i now cutoff notify l =
        walked i _ (λ k. fresh_entry cutoff) l
          (λ k. lookup-sweep_keys api notify now cutoff _ _ k (shard-IsShard api r i v).unique)

    pub drop-Shows :
        (i : ℕ) → i < length r.shards → Shows (step api r (drops i)) (act api place d (drops i))
    unfolding step Assoc.lookup
    drop-Shows i l = walked i empty_shard (λ k o. none) l (λ k. refl)

    pub delete_one-Shows :
        (x : Expired api)
        → x.shard ≡ shard_at r x.snap.key
        → Shows
            (delete_one api r x).0
            (if is_same api x (d.entry x.snap.key) then put d x.snap.key none else d)
    unfolding deleted without_key
    delete_one-Shows x h =
        subst
          (λ y. Shows y.0 (if is_same api x (d.entry x.snap.key) then put d x.snap.key none else d))
          (sym (delete_one_filed r x h)) (by_same (is_same api x (lookup r x.snap.key)) refl)
      where
        by_same :
            (b : Bool)
            → is_same api x (lookup r x.snap.key) ≡ b
            → Shows
                (deleted r x b).0
                (if is_same api x (d.entry x.snap.key) then put d x.snap.key none else d)
        by_same true p =
            rw (← s.entries x.snap.key, p)
              (record {
                entries = λ k. gone api r x.snap.key k v.sharded ∙ ground (arith, s.entries k);
                ids = s.ids;
              })
        by_same false p = rw (← s.entries x.snap.key, p) s
