-- ===== src/Registry/Directory/Refines.antt =====
-- registry/registry.go and registry/gc.go do what the directory does, however many shards there are.
use pace.Prelude.{ℕ, ◌≡◌, refl, ◌∙◌, Option, none, some, List, [], ◌∷◌, length, if-both}
use pace.Prelude.Bytes.{Bytes}
use pace.Prelude.Assoc
use pace.Registry.{
  BucketApi, Registry, Entry, Eviction, lookup, shard_at, shard_for, create, create_if, new_entry,
  add_entry, reload_key, reload_if,
}
use pace.Registry.Directory.{Directory, act, act_all, Fits, AllFit, Shows}
use pace.Registry.Gc.{delete_one, is_same, without_key}
use pace.Registry.Owned.{IsOwned}
use pace.Registry.Owned.Keys.{step-Keeps}
use pace.Registry.Population.{IsValid}
use pace.Registry.Shards.{shard_at_same, length-put_shard}
use pace.Registry.Run.{
  Op, creates, touches, evicts, deletes, sweeps, drops, reloads, reloads_key, reports, step, run,
  step-IsValid, evicted_if,
}
use pace.Registry.Directory.Entries.{create-Shows, touch-Shows, evict-Shows, reload_key-Shows}
use pace.Registry.Directory.Sweeps.{reload-Shows, sweep-Shows, drop-Shows, delete_one-Shows}

module _ (api : BucketApi) where
  open api use {Bkt, Quo, Tok}

  -- No step adds a shard or takes one away.
  length-step : (r : Registry Bkt) (o : Op api) → length (step api r o).shards ≡ length r.shards
  unfolding step create add_entry delete_one reload_key without_key
  length-step r (creates key q found now) = by_lookup (Assoc.lookup key (shard_for r key).keys)
    where
      by_lookup :
          (o : Option (Entry Bkt))
          → length (create_if api r key (new_entry api r.next_id q found now) o).0.shards
            ≡ length r.shards
      by_lookup none = length-put_shard r _ _
      by_lookup (some e) = refl
  length-step r (touches key id now) = length-put_shard r _ _
  length-step r (evicts key) = by_lookup (lookup r key)
    where
      by_lookup :
          (o : Option (Entry Bkt)) → length (evicted_if api r key o).shards ≡ length r.shards
      by_lookup none = refl
      by_lookup (some e) = length-put_shard r _ _
  length-step r (deletes x) =
      if-both {A = Registry Bkt × List (Eviction Tok)} (λ y. length y.0.shards ≡ length r.shards)
        (is_same api x _) _ _ (length-put_shard r x.shard _) refl
  length-step r (sweeps i now cutoff notify) = length-put_shard r _ _
  length-step r (drops i) = length-put_shard r _ _
  length-step r (reloads i clock q) = length-put_shard r _ _
  length-step r (reloads_key key now q) = by_lookup (lookup r key)
    where
      by_lookup :
          (o : Option (Entry Bkt)) → length (reload_if api r key now q o).0.shards ≡ length r.shards
      by_lookup none = refl
      by_lookup (some e) = length-put_shard r _ _
  length-step r (reports n) = refl

  report-Shows :
      (r : Registry Bkt) (d : Directory Bkt) (n : ℕ) → Shows r d → Shows (step api r (reports n)) d
  unfolding step lookup shard_for shard_at
  report-Shows r d n s = record { entries = s.entries; ids = s.ids }

  module _ (place : Bytes → ℕ) where
    step-Shows :
        (r : Registry Bkt) (d : Directory Bkt) (o : Op api)
        → IsValid r
        → IsOwned r
        → Shows r d
        → ((k : Bytes) → shard_at r k ≡ place k)
        → Fits api place r o
        → Shows (step api r o) (act api place d o)
    unfolding step
    step-Shows r d (creates key q found now) v w s p h =
        create-Shows api r d v s place key q found now
    step-Shows r d (touches key id now) v w s p h = touch-Shows api r d v s place key id now h
    step-Shows r d (evicts key) v w s p h = evict-Shows api r d v s place key
    step-Shows r d (deletes x) v w s p h = delete_one-Shows api r d v s place p x h
    step-Shows r d (sweeps i now cutoff notify) v w s p h =
        sweep-Shows api r d v s place p i now cutoff notify h
    step-Shows r d (drops i) v w s p h = drop-Shows api r d v s place p i h
    step-Shows r d (reloads i clock q) v w s p h =
        reload-Shows api r d v s place p i clock q h.0 h.1
    step-Shows r d (reloads_key key now q) v w s p h =
        reload_key-Shows api r d v s place key now q w
    step-Shows r d (reports n) v w s p h = report-Shows r d n s

    -- Any interleaving of the critical sections of the registry's calls leaves every key with the
    -- entry that one map from keys to entries would have for it, and the ids as they would be there.
    -- In that map a sweep in place, a DropAll and a Reload are steps for one group of keys after the
    -- other, with others' steps between them; the groups are the shards' keys. The pointers that are
    -- touched are their keys' own, a sweep's finds name the shard of their key, and a shard is
    -- reloaded at one instant.
    pub run-Shows :
        (r : Registry Bkt) (d : Directory Bkt) (os : List (Op api))
        → IsValid r
        → IsOwned r
        → Shows r d
        → ((k : Bytes) → shard_at r k ≡ place k)
        → AllFit api place r os
        → Shows (run api r os) (act_all api place d os)
    unfolding run
    run-Shows r d [] v w s p h = s
    run-Shows r d (o ∷ os) v w s p h =
        run-Shows (step api r o) (act api place d o) os (step-IsValid api r o v)
          ((step-Keeps api r o v).owned w) (step-Shows r d o v w s p h.0)
          (λ k. shard_at_same (step api r o) r k (length-step r o) ∙ p k) h.1
