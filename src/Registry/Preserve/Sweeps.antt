-- ===== src/Registry/Preserve/Sweeps.antt =====
-- The sweeps of registry/gc.go keep the registry well-formed.
use pace.Prelude.{
  ℕ, suc, ◌+◌, ◌%◌, ◌^◌, ◌≡◌, refl, sym, ap, true, false, Bool, none, List, [], ◌∷◌, arith, length,
  All, if-both,
}
use pace.Prelude.Int.{ℤ, ltb_ℤ}
use pace.Prelude.Bytes.{Bytes}
use pace.Prelude.Assoc
use pace.Prelude.Assoc.{Assoc, Unique}
use pace.Prelude.Word.{add_int64}
use pace.Registry.{BucketApi, Registry, Shard, Entry}
use pace.Registry.Gc.{
  Expired, delete_expired, Kept, lowered, sweep_one, sweep_keys, sweep_shards, sweep_in_place, Note,
  sweep, after_collect, collect,
}
use pace.Registry.Population.{IsShard, IsValid}
use pace.Registry.Preserve.{same_shards, shards-report_all, delete_expired-IsValid}

module _ (api : BucketApi) where
  open api use {Bkt, Quo, Tok}

  -- What a sweep in place keeps of a shard's keys, `n` of them having been passed before.
  abbrev IsKept : ℕ → Assoc (Entry Bkt) → Kept api → Type 0
  IsKept n m kept =
      Unique kept.keys
      × (kept.live ≡ (n + length kept.keys) % 2 ^ 64)
      × ((k : Bytes) → Assoc.lookup k m ≡ none → Assoc.lookup k kept.keys ≡ none)

  abbrev passed : Bool → ℕ → ℕ
  passed true n = n
  passed false n = suc n

  sweep_one-IsKept :
      (gone notify : Bool) (now : ℤ) (n : ℕ) (j : Bytes) (e : Entry Bkt) (m : Assoc (Entry Bkt))
      (rest : Kept api)
      → Assoc.lookup j m ≡ none
      → IsKept (passed gone n) m rest
      → IsKept n ((j, e) ∷ m) (sweep_one api gone notify now j e rest)
  unfolding Assoc.lookup
  sweep_one-IsKept true notify now n j e m rest h k = (k.0, k.1, λ i p. k.2 i (ground arith))
  sweep_one-IsKept false notify now n j e m rest h k =
      ((k.2 j h, k.0), omega (arith, k.1), λ i p. ground (arith, k.2 i))

  lowered-counted :
      (gone : Bool) (live n : ℕ) (j : ℕ)
      → live ≡ (n + suc j) % 2 ^ 64
      → lowered api gone live ≡ (passed gone n + j) % 2 ^ 64
  unfolding add_int64
  lowered-counted true live n j h = omega arith
  lowered-counted false live n j h = omega arith

  sweep_keys-IsKept :
      (notify : Bool) (now cutoff : ℤ) (live n : ℕ) (m : Assoc (Entry Bkt))
      → Unique m
      → live ≡ (n + length m) % 2 ^ 64
      → IsKept n m (sweep_keys api notify now cutoff live m)
  unfolding sweep_keys
  sweep_keys-IsKept notify now cutoff live n [] u h = (tt, h, λ k e. e)
  sweep_keys-IsKept notify now cutoff live n ((j, e) ∷ m) u h =
      let gone = ltb_ℤ e.last_used cutoff in
      sweep_one-IsKept gone notify now n j e m _ u.0 (
        sweep_keys-IsKept notify now cutoff (lowered api gone live) (passed gone n) m u.1
          (lowered-counted gone live n (length m) h))

  pub sweep_keys-IsShard :
      (notify : Bool) (now cutoff : ℤ) (sh : Shard Bkt)
      → IsShard sh
      → let k = sweep_keys api notify now cutoff sh.live sh.keys in
        IsShard (record { keys = k.keys; live = k.live })
  sweep_keys-IsShard notify now cutoff sh v =
      let kept =
        sweep_keys-IsKept notify now cutoff sh.live 0 sh.keys v.unique (omega (arith, v.counted)) in
      record { unique = kept.0; counted = omega (arith, kept.1) }

  sweep_shards-AreShards :
      (notify : Bool) (now cutoff : ℤ) (shs : List (Shard Bkt))
      → All IsShard shs
      → All IsShard (sweep_shards api notify now cutoff shs).shards
        × (length (sweep_shards api notify now cutoff shs).shards ≡ length shs)
  unfolding sweep_shards
  sweep_shards-AreShards notify now cutoff [] v = (tt, refl)
  sweep_shards-AreShards notify now cutoff (sh ∷ shs) v =
      let rest = sweep_shards-AreShards notify now cutoff shs v.1 in
      ((sweep_keys-IsShard notify now cutoff sh v.0, rest.0), ap suc rest.1)

  sweep_in_place-IsValid :
      (r : Registry Bkt) (now cutoff : ℤ) (notify : Bool)
      → IsValid r
      → IsValid (sweep_in_place api r now cutoff notify).0
  unfolding sweep_in_place
  sweep_in_place-IsValid r now cutoff notify v =
      let d = sweep_shards api notify now cutoff r.shards in
      let swept : Registry Bkt = record r { shards = d.shards } in
      let left = sweep_shards-AreShards notify now cutoff r.shards v.shards_valid in
      let h : IsValid swept = record {
        sharded = omega (arith, v.sharded, left.1);
        shards_valid = left.0;
      } in
      if-both {A = Registry Bkt × List (Note Tok)} (λ m. IsValid m.0) notify _ _
        (same_shards swept _ (sym (shards-report_all swept d.told)) h) (same_shards swept _ refl h)

  -- A sweep keeps the registry well-formed, whatever well-formed registry others leave while the
  -- store is written.
  pub sweep-IsValid :
      (r : Registry Bkt) (now later expiry : ℤ) (persists notify : Bool)
      (others : Registry Bkt → Registry Bkt)
      → IsValid r
      → IsValid (others r)
      → IsValid (sweep api r now later expiry persists notify others).0
  unfolding sweep
  sweep-IsValid r now later expiry persists notify others v w =
      if-both {A = Registry Bkt × List (Note Tok)} (λ m. IsValid m.0) persists _ _
        (collected (collect api 0 now _ r.shards)) (sweep_in_place-IsValid r later _ notify v)
    where
      collected : (xs : List (Expired api)) → IsValid (after_collect api r others xs).0
      collected [] = w
      collected (x ∷ xs) =
          same_shards (delete_expired api (others r) (x ∷ xs)).0 _
            (sym (
              shards-report_all (delete_expired api (others r) (x ∷ xs)).0
                (delete_expired api (others r) (x ∷ xs)).1))
            (delete_expired-IsValid api (others r) (x ∷ xs) w)
