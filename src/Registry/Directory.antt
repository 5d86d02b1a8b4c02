-- ===== src/Registry/Directory.antt =====
-- What registry/registry.go and registry/gc.go promise, without shards: one map from keys to entries.
pub mod Entries
pub mod Sweeps
pub mod Refines
use pace.Prelude.{
  ℕ, ◌+◌, ◌<◌, ◌==◌, ◌≡◌, Bool, Option, none, some, List, [], ◌∷◌, length, if◌then◌else◌,
}
use pace.Prelude.Int.{ℤ}
use pace.Prelude.Bytes.{Bytes, bytes_eq}
use pace.Registry.{
  BucketApi, Registry, Entry, Snapshot, lookup, shard_at, new_entry, touch, requote,
}
use pace.Registry.Gc.{Expired, is_same}
use pace.Registry.Gc.InPlace.{fresh_entry}
use pace.Registry.Owned.{Belongs, changed}
use pace.Registry.Reload.{requoted}
use pace.Registry.Run.{
  Op, creates, touches, evicts, deletes, sweeps, drops, reloads, reloads_key, reports, step,
}

pub record Directory (Bkt : Type 0) : Type 0 where
  pub entry : Bytes → Option (Entry Bkt)
  pub next_id : ℕ

module _ {Bkt : Type 0} where
  abbrev pub put : Directory Bkt → Bytes → Option (Entry Bkt) → Directory Bkt
  put d key o = record d { entry = λ k. if bytes_eq key k then o else d.entry k }

  -- The key's entry, or a new one.
  abbrev pub add : Directory Bkt → Bytes → (ℕ → Entry Bkt) → Option (Entry Bkt) → Directory Bkt
  add d key new none = record (put d key (some (new d.next_id))) { next_id = d.next_id + 1 }
  add d key new (some e) = d

  -- The registry holds what the directory does.
  pub record Shows (r : Registry Bkt) (d : Directory Bkt) : Type 0 where
    pub entries : (k : Bytes) → lookup r k ≡ d.entry k
    pub ids : r.next_id ≡ d.next_id

-- The keys fall into groups, by `place`: what walks over the keys does so group by group, and other
-- steps may come in between.
module _ (api : BucketApi) (place : Bytes → ℕ) where
  open api use {Bkt, Quo, Tok}

  -- A change of every key in one group.
  abbrev pub in_group :
      ℕ → (Bytes → Option (Entry Bkt) → Option (Entry Bkt)) → Directory Bkt → Directory Bkt
  in_group i f d = record d { entry = λ k. if place k == i then f k (d.entry k) else d.entry k }

  abbrev pub act : Directory Bkt → Op api → Directory Bkt
  act d (creates key q found now) = add d key (λ id. new_entry api id q found now) (d.entry key)
  act d (touches key id now) = put d key (changed id (λ e. touch e now) (d.entry key))
  act d (evicts key) = put d key none
  act d (deletes x) = if is_same api x (d.entry x.snap.key) then put d x.snap.key none else d
  act d (sweeps i now cutoff notify) = in_group i (λ k. fresh_entry cutoff) d
  act d (drops i) = in_group i (λ k o. none) d
  act d (reloads i clock q) = in_group i (λ k. requoted api (clock 0) (q k)) d
  act d (reloads_key key now q) = put d key (requoted api now (q key) (d.entry key))
  act d (reports n) = d

  abbrev pub act_all : Directory Bkt → List (Op api) → Directory Bkt
  act_all d [] = d
  act_all d (o ∷ os) = act_all (act d o) os

  -- A pointer is used for the key that it was got for, what was found expired was found in its key's
  -- shard, the walks are over shards that there are, and one shard's keys are reloaded at one instant.
  abbrev pub Fits : Registry Bkt → Op api → Type 0
  Fits r (touches key id now) = Belongs id key r
  Fits r (deletes x) = x.shard ≡ shard_at r x.snap.key
  Fits r (sweeps i now cutoff notify) = i < length r.shards
  Fits r (drops i) = i < length r.shards
  Fits r (reloads i clock q) = (i < length r.shards) × ((n : ℕ) → clock n ≡ clock 0)
  Fits r _ = Unit

  abbrev pub AllFit : Registry Bkt → List (Op api) → Type 0
  AllFit r [] = Unit
  AllFit r (o ∷ os) = Fits r o × AllFit (step api r o) os
