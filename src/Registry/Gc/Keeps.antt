-- ===== src/Registry/Gc/Keeps.antt =====
-- Which keys a sweep of registry/gc.go removes.
use pace.Prelude.{
  ℕ, ◌+◌, ◌≤◌, ◌<◌, ==_iff, ◌≡◌, refl, ap, ◌∙◌, true, false, Bool, some, List, [], ◌∷◌, ◌++◌, arith,
  length, All, get_or, if◌then◌else◌,
}
use pace.Prelude.Int.{ℤ, ltb_ℤ, ◌≤ℤ◌, ◌-ℤ◌}
use pace.Prelude.Word.{wrap64}
use pace.Prelude.Bytes.{Bytes, bytes_eq_iff}
use pace.Prelude.Assoc
use pace.Prelude.Assoc.{Assoc, Unique, lookup-delete}
use pace.Registry.{
  BucketApi, Eviction, Registry, Shard, Entry, empty_shard, shard_at, shard_for, lookup, put_shard,
}
use pace.Registry.Gc.{
  drop_key, Expired, expired_keys, collect, is_same, idle_eviction, delete_one, delete_expired,
  sweep, after_collect,
}
use pace.Registry.Shards.{lookup-put_shard, length-put_shard}
use pace.Registry.Preserve.{shards-report_all}

module _ {Bkt : Type 0} where
  lookup-same_shards :
      (r q : Registry Bkt) (k : Bytes) → r.shards ≡ q.shards → lookup r k ≡ lookup q k
  unfolding lookup shard_for shard_at
  lookup-same_shards r q k e = rw e

  lookup-at :
      (r : Registry Bkt) (j : Bytes) (i : ℕ)
      → shard_at r j ≡ i
      → Assoc.lookup j (get_or r.shards i empty_shard).keys ≡ lookup r j
  unfolding lookup shard_for
  lookup-at r j i e = rw (← e)

module _ (api : BucketApi) where
  open api use {Bkt, Tok}

  delete_one-shards :
      (r : Registry Bkt) (x : Expired api) → length (delete_one api r x).0.shards ≡ length r.shards
  unfolding delete_one
  delete_one-shards r x =
      let sh = get_or r.shards x.shard empty_shard in
      ground (arith, length-put_shard r x.shard (drop_key sh x.snap.key))

  -- An entry is still there unless it is the one that was found, not used since.
  delete_one-keeps :
      (r : Registry Bkt) (x : Expired api) (j : Bytes) (e : Entry Bkt)
      → x.shard < length r.shards
      → lookup r j ≡ some e
      → (x.snap.key ≡ j → is_same api x (some e) ≡ false)
      → lookup (delete_one api r x).0 j ≡ some e
  unfolding delete_one drop_key
  delete_one-keeps r x j e h p s =
      go (is_same api x (Assoc.lookup x.snap.key (get_or r.shards x.shard empty_shard).keys)) refl
    where
      sh : Shard Bkt
      sh = get_or r.shards x.shard empty_shard

      go :
          (b : Bool)
          → is_same api x (Assoc.lookup x.snap.key sh.keys) ≡ b
          → lookup
              (if◌then◌else◌ {A = Registry Bkt × List (Eviction Tok)} b
                (put_shard r x.shard (drop_key sh x.snap.key), idle_eviction api x ∷ [])
                (r, [])).0
              j
            ≡ some e
      go false q = p
      go true q = rw (lookup-put_shard r x.shard (drop_key sh x.snap.key) j h) (
          ground (
            arith,
            ==_iff (shard_at r j) x.shard,
            lookup-delete x.snap.key j sh.keys,
            bytes_eq_iff x.snap.key j,
            λ (n : shard_at r j ≡ x.shard). lookup-at r j x.shard n,
            p,
            q,
            s,
            λ (n : x.snap.key ≡ j). ap (λ k. Assoc.lookup k sh.keys) n,
          ))

  -- The expired entries are at shards that exist, and none of them is an entry `e` of the key `j`.
  abbrev Spare : ℕ → Bytes → Entry Bkt → Expired api → Type 0
  Spare n j e x = (x.shard < n) × (x.snap.key ≡ j → is_same api x (some e) ≡ false)

  -- The third phase of a sweep keeps an entry that was used since the first phase, or that is not the
  -- one that the first phase saw.
  delete_expired-keeps :
      (r : Registry Bkt) (xs : List (Expired api)) (j : Bytes) (e : Entry Bkt)
      → lookup r j ≡ some e
      → All (Spare (length r.shards) j e) xs
      → lookup (delete_expired api r xs).0 j ≡ some e
  unfolding delete_expired
  delete_expired-keeps r [] j e p s = p
  delete_expired-keeps r (x ∷ xs) j e p s =
      delete_expired-keeps (delete_one api r x).0 xs j e (delete_one-keeps r x j e s.0.0 p s.0.1)
        (rw (delete_one-shards r x) s.1)

  All-append {ℓ} :
      (P : Expired api → Type ℓ) (xs ys : List (Expired api))
      → All P xs
      → All P ys
      → All P (xs ++ ys)
  All-append P [] ys h k = k
  All-append P (x ∷ xs) ys h k = (h.0, All-append P xs ys h.1 k)

  expired_keys-Spare :
      (n i : ℕ) (now cutoff : ℤ) (m : Assoc (Entry Bkt)) (j : Bytes) (e : Entry Bkt)
      → i < n
      → cutoff ≤ℤ e.last_used
      → All (Spare n j e) (expired_keys api i now cutoff m)
  expired_keys-Spare n i now cutoff [] j e h k = tt
  expired_keys-Spare n i now cutoff ((key, d) ∷ m) j e h k =
      go (ltb_ℤ d.last_used cutoff) refl (expired_keys-Spare n i now cutoff m j e h k)
    where
      x : Expired api
      x = record {
        shard = i;
        id = d.id;
        snap = record { key = key; tokens = api.tokens_at d.bucket now; last_used = d.last_used };
        last_used = d.last_used;
      }

      go :
          (b : Bool)
          → ltb_ℤ d.last_used cutoff ≡ b
          → All (Spare n j e) (expired_keys api i now cutoff m)
          → All
              (Spare n j e)
              (if b then x ∷ expired_keys api i now cutoff m else expired_keys api i now cutoff m)
      go true q rest = ((h, λ a. ground arith), rest)
      go false q rest = rest

  collect-Spare :
      (n i : ℕ) (now cutoff : ℤ) (shs : List (Shard Bkt)) (j : Bytes) (e : Entry Bkt)
      → i + length shs ≤ n
      → cutoff ≤ℤ e.last_used
      → All (Spare n j e) (collect api i now cutoff shs)
  unfolding collect
  collect-Spare n i now cutoff [] j e h k = tt
  collect-Spare n i now cutoff (sh ∷ shs) j e h k =
      All-append (Spare n j e) (expired_keys api i now cutoff sh.keys)
        (collect api (i + 1) now cutoff shs)
        (expired_keys-Spare n i now cutoff sh.keys j e (omega arith) k)
        (collect-Spare n (i + 1) now cutoff shs j e (omega arith) k)

  -- With a store, a sweep drops no key that was used since the cutoff, even when the use, or the
  -- entry's creation, came after the first phase had found the key idle: whatever others do to the
  -- registry meanwhile, an entry that they leave with a time of last use at the cutoff or later is
  -- still there, the same, when the sweep ends. The number of shards is fixed.
  pub sweep_keeps :
      (r : Registry Bkt) (now later expiry : ℤ) (notify : Bool)
      (others : Registry Bkt → Registry Bkt) (j : Bytes) (e : Entry Bkt)
      → length (others r).shards ≡ length r.shards
      → lookup (others r) j ≡ some e
      → wrap64 (now -ℤ expiry) ≤ℤ e.last_used
      → lookup (sweep api r now later expiry true notify others).0 j ≡ some e
  unfolding sweep
  sweep_keeps r now later expiry notify others j e h p k =
      swept (collect api 0 now (wrap64 (now -ℤ expiry)) r.shards) (
        collect-Spare (length (others r).shards) 0 now (wrap64 (now -ℤ expiry)) r.shards j e
          (omega (arith, h)) k)
    where
      swept :
          (xs : List (Expired api))
          → All (Spare (length (others r).shards) j e) xs
          → lookup (after_collect api r others xs).0 j ≡ some e
      swept [] s = p
      swept (x ∷ xs) s =
          lookup-same_shards _ (delete_expired api (others r) (x ∷ xs)).0 j (
            shards-report_all (delete_expired api (others r) (x ∷ xs)).0
              (delete_expired api (others r) (x ∷ xs)).1)
          ∙ delete_expired-keeps (others r) (x ∷ xs) j e p s
