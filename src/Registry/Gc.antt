-- ===== src/Registry/Gc.antt =====
-- registry/gc.go: how keys leave the registry. A call returns, beside the new registry, what it told
-- its owner, in order. A walk over the shards is a call with nobody in between; Registry.Run has the
-- critical sections of the walks as steps.
pub mod Keeps
pub mod InPlace
pub mod Counts
use pace.Prelude.{
  ℕ, ◌+◌, ◌-◌, ◌^◌, ◌==◌, ◌&&◌, Bool, true, false, Option, none, some, List, [], ◌∷◌, ◌++◌, map,
  length, set, get_or, if◌then◌else◌,
}
use pace.Prelude.Int.{ℤ, pos, ltb_ℤ, eq_ℤ, ◌-ℤ◌}
use pace.Prelude.Bytes.{Bytes}
use pace.Prelude.Assoc
use pace.Prelude.Assoc.{Assoc}
use pace.Prelude.Word.{add_int64, wrap64}
use pace.Registry.{
  BucketApi, Reason, idle, explicit, shutdown, Snapshot, Eviction, eviction_of, Entry, Shard,
  Registry, empty_shard, shard_at, shard_for, put_shard, snapshot, lookup,
}

-- c.Add(-1) on a counter's bit pattern.
abbrev pub minus_one : ℕ
minus_one = 2 ^ 64 - 1

-- The calls of Spec.Save, Spec.Flush and Spec.OnEvict.
pub data Note (Tok : Type 0) : Type 0 where
  saved : Snapshot Tok → Note Tok
  flushed : List (Snapshot Tok) → Note Tok
  evicted : Eviction Tok → Note Tok

module _ {Bkt : Type 0} where
  -- delete(sh.keys, key) and sh.live.Add(-1)
  unfoldable pub drop_key : Shard Bkt → Bytes → Shard Bkt
  drop_key sh key = record { keys = Assoc.delete key sh.keys; live = add_int64 sh.live minus_one }

module _ {Bkt Tok : Type 0} where
  -- The evictions that `report` counts and passes on, one by one.
  unfoldable pub report_all : Registry Bkt → List (Eviction Tok) → Registry Bkt × List (Note Tok)
  report_all r [] = (r, [])
  report_all r (e ∷ es) =
      let (r', notes) = report_all (record r { evictions = add_int64 r.evictions 1 }) es in
      (r', evicted e ∷ notes)

module _ (api : BucketApi) where
  open api use {Bkt, Tok, tokens_at}

  pub record Evicted : Type 0 where
    pub registry : Registry Bkt
    pub notes : List (Note Tok)
    pub had : Bool
    pub error : Option ℤ

  abbrev pub after_save : Registry Bkt → Snapshot Tok → List (Note Tok) → Option ℤ → Evicted
  after_save r s notes (some e) = record { registry = r; notes = notes; had = true; error = some e }
  after_save r s notes none =
      let (r', told) = report_all r (eviction_of s explicit ∷ []) in
      record { registry = r'; notes = notes ++ told; had = true; error = none }

  -- delete(sh.keys, key)
  unfoldable pub without_key : Registry Bkt → Bytes → Registry Bkt
  unfolding drop_key put_shard
  without_key r key = put_shard r (shard_at r key) (drop_key (shard_for r key) key)

  abbrev pub evict_if :
      Registry Bkt → Bytes → ℤ → Bool → (Snapshot Tok → Option ℤ) → Option (Entry Bkt) → Evicted
  evict_if r key now persists save none = record {
    registry = r;
    notes = [];
    had = false;
    error = none;
  }
  evict_if r key now persists save (some e) =
      let s = snapshot api key e now in
      if persists
      then after_save (without_key r key) s (saved s ∷ []) (save s)
      else after_save (without_key r key) s [] none

  -- `save` answers with the error of the store, if any.
  unfoldable pub evict : Registry Bkt → Bytes → ℤ → Bool → (Snapshot Tok → Option ℤ) → Evicted
  unfolding without_key report_all snapshot lookup
  evict r key now persists save = evict_if r key now persists save (lookup r key)

  abbrev pub shutdown_evictions : ℤ → Assoc (Entry Bkt) → List (Eviction Tok)
  shutdown_evictions now [] = []
  shutdown_evictions now ((k, e) ∷ m) =
      eviction_of (snapshot api k e now) shutdown ∷ shutdown_evictions now m

  -- What a walk over the shards leaves of them, the evictions to report, and how many keys went.
  pub record Dropped : Type 0 where
    pub shards : List (Shard Bkt)
    pub told : List (Eviction Tok)
    pub dropped : ℕ

  unfoldable pub drop_shards : Bool → ℤ → List (Shard Bkt) → Dropped
  unfolding snapshot
  drop_shards notify now [] = record { shards = []; told = []; dropped = 0 }
  drop_shards notify now (sh ∷ shs) =
      let rest = drop_shards notify now shs in
      record {
        shards = empty_shard ∷ rest.shards;
        told = (if notify then shutdown_evictions now sh.keys else []) ++ rest.told;
        dropped = length sh.keys + rest.dropped;
      }

  unfoldable pub drop_all : Registry Bkt → ℤ → Bool → Registry Bkt × List (Note Tok)
  unfolding drop_shards report_all
  drop_all r now notify =
      let d = drop_shards notify now r.shards in
      let emptied = record r { shards = d.shards } in
      if notify
      then report_all emptied d.told
      else (record emptied { evictions = add_int64 r.evictions d.dropped }, [])

  -- An entry that the first phase of a sweep found idle, and what it read there.
  pub record Expired : Type 0 where
    pub shard : ℕ
    pub id : ℕ
    pub snap : Snapshot Tok
    pub last_used : ℤ

  abbrev pub expired_keys : ℕ → ℤ → ℤ → Assoc (Entry Bkt) → List Expired
  expired_keys i now cutoff [] = []
  expired_keys i now cutoff ((k, e) ∷ m) =
      let rest = expired_keys i now cutoff m in
      if ltb_ℤ e.last_used cutoff
      then record {
        shard = i;
        id = e.id;
        snap = record { key = k; tokens = tokens_at e.bucket now; last_used = e.last_used };
        last_used = e.last_used;
      }
        ∷ rest
      else rest

  -- Phase 1.
  unfoldable pub collect : ℕ → ℤ → ℤ → List (Shard Bkt) → List Expired
  collect i now cutoff [] = []
  collect i now cutoff (sh ∷ shs) =
      expired_keys i now cutoff sh.keys ++ collect (i + 1) now cutoff shs

  abbrev pub is_same : Expired → Option (Entry Bkt) → Bool
  is_same x none = false
  is_same x (some e) = (e.id == x.id) && eq_ℤ e.last_used x.last_used

  abbrev pub idle_eviction : Expired → Eviction Tok
  idle_eviction x = record {
    key = x.snap.key;
    reason = idle;
    tokens = x.snap.tokens;
    last_used = x.snap.last_used;
  }

  -- Phase 3, for one of them: deleted unless it is another entry by now, or was touched.
  unfoldable pub delete_one : Registry Bkt → Expired → Registry Bkt × List (Eviction Tok)
  unfolding drop_key put_shard
  delete_one r x =
      let sh = get_or r.shards x.shard empty_shard in
      if is_same x (Assoc.lookup x.snap.key sh.keys)
      then (put_shard r x.shard (drop_key sh x.snap.key), idle_eviction x ∷ [])
      else (r, [])

  unfoldable pub delete_expired : Registry Bkt → List Expired → Registry Bkt × List (Eviction Tok)
  delete_expired r [] = (r, [])
  delete_expired r (x ∷ xs) =
      let (r', e) = delete_one r x in let (r'', es) = delete_expired r' xs in (r'', e ++ es)

  pub record Kept : Type 0 where
    pub keys : Assoc (Entry Bkt)
    pub live : ℕ
    pub told : List (Eviction Tok)
    pub count : ℕ

  abbrev pub lowered : Bool → ℕ → ℕ
  lowered true live = add_int64 live minus_one
  lowered false live = live

  -- One key of the walk, which is deleted in place if it is `gone`, before the rest.
  abbrev pub sweep_one : Bool → Bool → ℤ → Bytes → Entry Bkt → Kept → Kept
  sweep_one true notify now k e rest = record rest {
    told = if notify then eviction_of (snapshot api k e now) idle ∷ rest.told else rest.told;
    count = rest.count + 1;
  }
  sweep_one false notify now k e rest = record rest { keys = (k, e) ∷ rest.keys }

  unfoldable pub sweep_keys : Bool → ℤ → ℤ → ℕ → Assoc (Entry Bkt) → Kept
  unfolding snapshot
  sweep_keys notify now cutoff live [] = record { keys = []; live = live; told = []; count = 0 }
  sweep_keys notify now cutoff live ((k, e) ∷ m) =
      let gone = ltb_ℤ e.last_used cutoff in
      sweep_one gone notify now k e (sweep_keys notify now cutoff (lowered gone live) m)

  unfoldable pub sweep_shards : Bool → ℤ → ℤ → List (Shard Bkt) → Dropped
  unfolding sweep_keys
  sweep_shards notify now cutoff [] = record { shards = []; told = []; dropped = 0 }
  sweep_shards notify now cutoff (sh ∷ shs) =
      let k = sweep_keys notify now cutoff sh.live sh.keys in
      let rest = sweep_shards notify now cutoff shs in
      record {
        shards = record { keys = k.keys; live = k.live } ∷ rest.shards;
        told = k.told ++ rest.told;
        dropped = k.count + rest.dropped;
      }

  unfoldable pub sweep_in_place : Registry Bkt → ℤ → ℤ → Bool → Registry Bkt × List (Note Tok)
  unfolding sweep_shards report_all
  sweep_in_place r now cutoff notify =
      let d = sweep_shards notify now cutoff r.shards in
      let swept = record r { shards = d.shards } in
      if notify
      then report_all swept d.told
      else (record swept { evictions = add_int64 r.evictions d.dropped }, [])

  abbrev pub after_collect :
      Registry Bkt → (Registry Bkt → Registry Bkt) → List Expired → Registry Bkt × List (Note Tok)
  after_collect r others [] = (others r, [])
  after_collect r others (x ∷ xs) =
      let (r', es) = delete_expired (others r) (x ∷ xs) in
      let (r'', notes) = report_all r' es in (r'', flushed (map (λ y. y.snap) (x ∷ xs)) ∷ notes)

  -- `others` is what other goroutines do to the registry after the first phase. `expiry` is
  -- IdleExpiry, and the cutoff is an int64; the sweep in place reads the clock again, `later`.
  unfoldable pub sweep :
      Registry Bkt
      → ℤ
      → ℤ
      → ℤ
      → Bool
      → Bool
      → (Registry Bkt → Registry Bkt)
      → Registry Bkt × List (Note Tok)
  unfolding sweep_in_place collect delete_expired
  sweep r now later expiry persists notify others =
      let cutoff = wrap64 (now -ℤ expiry) in
      if persists
      then after_collect r others (collect 0 now cutoff r.shards)
      else sweep_in_place r later cutoff notify
