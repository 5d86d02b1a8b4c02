-- ===== src/Registry.antt =====
-- registry/registry.go: the sharded map of rate-limited keys. An entry's `id` stands for the pointer
-- to it; its bucket is behind an interface.
pub mod Gc
pub mod Shards
pub mod Create
pub mod Population
pub mod Preserve
pub mod Reload
pub mod Owned
pub mod Directory
pub mod Run
mod Tests
use Prim.Native.Nat.{bit_and, bit_xor}
use pace.Prelude.{
  ℕ, ◌+◌, ◌-◌, ◌*◌, ◌%◌, ◌^◌, ◌==◌, Bool, true, false, not, ◌||◌, Option, none, some, List, [], ◌∷◌,
  ◌++◌, map, length, get_or, set, replicate, if◌then◌else◌,
}
use pace.Prelude.Int.{ℤ, pos, leb_ℤ, eq_ℤ}
use pace.Prelude.Bytes.{Bytes}
use pace.Prelude.Assoc
use pace.Prelude.Assoc.{Assoc}
use pace.Prelude.Word.{add_int64, wrap64}

-- What the registry uses of a token bucket.
pub record BucketApi : Type 1 where
  pub Bkt : Type 0
  pub Quo : Type 0
  pub Tok : Type 0
  pub new_bucket : Quo → Bkt
  pub restore_bucket : Quo → Tok → ℤ → ℤ → Bkt
  pub tokens_at : Bkt → ℤ → Tok
  pub set_quota_at : Bkt → ℤ → Quo → Bkt

abbrev pub default_shards : ℕ
default_shards = 256

pub data Reason : Type 0 where
  idle explicit shutdown : Reason

pub record Snapshot (Tok : Type 0) : Type 0 where
  pub key : Bytes
  pub tokens : Tok
  pub last_used : ℤ

pub record Eviction (Tok : Type 0) : Type 0 where
  pub key : Bytes
  pub reason : Reason
  pub tokens : Tok
  pub last_used : ℤ

abbrev pub eviction_of : {Tok : Type 0} → Snapshot Tok → Reason → Eviction Tok
eviction_of s reason = record {
  key = s.key;
  reason = reason;
  tokens = s.tokens;
  last_used = s.last_used;
}

-- `last_used` is UnixNano of an instant, an int64.
pub record Entry (Bkt : Type 0) : Type 0 where
  pub id : ℕ
  pub bucket : Bkt
  pub last_used : ℤ

pub record Shard (Bkt : Type 0) : Type 0 where
  pub keys : Assoc (Entry Bkt)
  pub live : ℕ

pub record Registry (Bkt : Type 0) : Type 0 where
  pub shards : List (Shard Bkt)
  pub next_id : ℕ
  pub evictions : ℕ

-- FNV-1a over the bytes of a key, in a uint32.
unfoldable pub fnv : ℕ → Bytes → ℕ
fnv h [] = h
fnv h (b ∷ bs) = fnv (bit_xor h b * 16777619 % 2 ^ 32) bs

unfoldable pub shard_index : Bytes → ℕ → ℕ
unfolding fnv
shard_index key mask = bit_and (fnv 2166136261 key) mask

module _ {Bkt : Type 0} where
  abbrev pub empty_shard : Shard Bkt
  empty_shard = record { keys = []; live = 0 }

  -- `none` is the panic of `New` on a shard count that is no power of two; n & (n - 1) in 64 bits.
  unfoldable pub new_registry : ℕ → Option (Registry Bkt)
  new_registry n =
      if (n == 0) || not (bit_and n (n - 1) == 0)
      then none
      else some (record { shards = replicate n empty_shard; next_id = 0; evictions = 0 })

  unfoldable pub shard_at : Registry Bkt → Bytes → ℕ
  unfolding shard_index
  shard_at r key = shard_index key (length r.shards - 1)

  unfoldable pub shard_for : Registry Bkt → Bytes → Shard Bkt
  shard_for r key = get_or r.shards (shard_at r key) empty_shard

  unfoldable pub lookup : Registry Bkt → Bytes → Option (Entry Bkt)
  unfolding shard_for
  lookup r key = Assoc.lookup key (shard_for r key).keys

  -- The write of a shard back into the registry.
  unfoldable pub put_shard : Registry Bkt → ℕ → Shard Bkt → Registry Bkt
  put_shard r i sh = record r { shards = set r.shards i sh }

  -- A write through a pointer to a key's entry, seen in the map if the entry is still there.
  abbrev pub through : ℕ → (Entry Bkt → Entry Bkt) → Assoc (Entry Bkt) → Assoc (Entry Bkt)
  through id f [] = []
  through id f ((k, e) ∷ m) = (k, (if e.id == id then f e else e)) ∷ through id f m

  unfoldable pub touch : Entry Bkt → ℤ → Entry Bkt
  touch e now = record e { last_used = wrap64 now }

  abbrev pub live_total : List (Shard Bkt) → ℕ
  live_total [] = 0
  live_total (sh ∷ shs) = add_int64 sh.live (live_total shs)

  -- The gauge while nobody else runs.
  unfoldable pub keys : Registry Bkt → ℕ
  keys r = live_total r.shards

module _ (api : BucketApi) where
  open api use {Bkt, Quo, Tok, new_bucket, restore_bucket, tokens_at, set_quota_at}

  -- The entry of a key that is seen for the first time, or restored: `found` is its saved state.
  unfoldable pub new_entry : ℕ → Quo → Option (Snapshot Tok) → ℤ → Entry Bkt
  new_entry id q none now = record { id = id; bucket = new_bucket q; last_used = wrap64 now }
  new_entry id q (some s) now =
      let used = wrap64 s.last_used in
      record {
        id = id;
        bucket = restore_bucket q s.tokens s.last_used now;
        last_used = if eq_ℤ used (pos 0) then wrap64 now else used;
      }

  unfoldable pub snapshot : Bytes → Entry Bkt → ℤ → Snapshot Tok
  snapshot key e now = record {
    key = key;
    tokens = tokens_at e.bucket now;
    last_used = e.last_used;
  }

  -- sh.keys[key] = u; sh.live.Add(1)
  unfoldable pub add_entry : Registry Bkt → Bytes → Entry Bkt → Registry Bkt
  unfolding put_shard
  add_entry r key e =
      let sh = shard_for r key in
      record (put_shard r (shard_at r key)
        (record { keys = Assoc.insert key e sh.keys; live = add_int64 sh.live 1 })) {
          next_id = r.next_id + 1;
        }

  abbrev pub create_if :
      Registry Bkt → Bytes → Entry Bkt → Option (Entry Bkt) → Registry Bkt × Entry Bkt
  create_if r key e (some old) = (r, old)
  create_if r key e none = (add_entry r key e, e)

  -- The cold path of `GetOrCreate` under the write lock: a key that others created meanwhile is kept.
  unfoldable pub create :
      Registry Bkt → Bytes → Quo → Option (Snapshot Tok) → ℤ → Registry Bkt × Entry Bkt
  unfolding new_entry add_entry
  create r key q found now =
      create_if r key (new_entry r.next_id q found now) (Assoc.lookup key (shard_for r key).keys)

  -- What the owner answers, and what other goroutines do while no lock is held.
  pub record Owner : Type 0 where
    pub now : ℤ
    pub persists : Bool
    pub load : Bytes → Option (Snapshot Tok)
    pub quota_for : Bytes → Quo
    pub others : Registry Bkt → Registry Bkt

  abbrev pub found_or :
      Registry Bkt → Registry Bkt × Entry Bkt → Option (Entry Bkt) → Registry Bkt × Entry Bkt
  found_or r cold (some e) = (r, e)
  found_or r cold none = cold

  unfoldable pub get_or_create : Registry Bkt → Bytes → Owner → Registry Bkt × Entry Bkt
  unfolding create lookup
  get_or_create r key o =
      found_or r
        (create (o.others r) key (o.quota_for key) (if o.persists then o.load key else none) o.now)
        (lookup r key)

  abbrev snapshot_shard : ℤ → Assoc (Entry Bkt) → List (Snapshot Tok)
  snapshot_shard now [] = []
  snapshot_shard now ((k, e) ∷ m) = snapshot k e now ∷ snapshot_shard now m

  abbrev snapshot_shards : ℤ → List (Shard Bkt) → List (Snapshot Tok)
  snapshot_shards now [] = []
  snapshot_shards now (sh ∷ shs) = snapshot_shard now sh.keys ++ snapshot_shards now shs

  unfoldable pub snapshot_all : Registry Bkt → ℤ → List (Snapshot Tok)
  unfolding snapshot
  snapshot_all r now = snapshot_shards now r.shards

  abbrev pub requote : ℤ → Quo → Entry Bkt → Entry Bkt
  requote now q e = record e { bucket = set_quota_at e.bucket now q }

  -- `clock` is read once for each key, in the order of the walk; `n` counts the readings.
  abbrev pub reload_keys : (ℕ → ℤ) → (Bytes → Quo) → ℕ → Assoc (Entry Bkt) → Assoc (Entry Bkt)
  reload_keys clock q n [] = []
  reload_keys clock q n ((k, e) ∷ m) =
      (k, requote (clock n) (q k) e) ∷ reload_keys clock q (n + 1) m

  abbrev pub reload_shards : (ℕ → ℤ) → (Bytes → Quo) → ℕ → List (Shard Bkt) → List (Shard Bkt)
  reload_shards clock q n [] = []
  reload_shards clock q n (sh ∷ shs) =
      record sh { keys = reload_keys clock q n sh.keys }
      ∷ reload_shards clock q (n + length sh.keys) shs

  unfoldable pub reload : Registry Bkt → (ℕ → ℤ) → (Bytes → Quo) → Registry Bkt
  reload r clock q = record r { shards = reload_shards clock q 0 r.shards }

  abbrev pub reload_if :
      Registry Bkt → Bytes → ℤ → (Bytes → Quo) → Option (Entry Bkt) → Registry Bkt × Bool
  reload_if r key now q none = (r, false)
  reload_if r key now q (some e) =
      let sh = shard_for r key in
      (
        put_shard r (shard_at r key)
            (record sh { keys = through e.id (requote now (q key)) sh.keys }),
        true,
      )

  unfoldable pub reload_key : Registry Bkt → Bytes → ℤ → (Bytes → Quo) → Registry Bkt × Bool
  unfolding put_shard lookup
  reload_key r key now q = reload_if r key now q (lookup r key)
