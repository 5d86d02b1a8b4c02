-- ===== src/Registry/Owned.antt =====
-- The pointers to the entries of registry/registry.go: an entry belongs to one key for good.
pub mod Steps
mod Tests
pub mod Keys
use pace.Prelude.{
  ℕ, zero, suc, replicate, ◌+◌, ◌<◌, ◌≤◌, ◌==◌, ◌≡◌, refl, sym, subst, ap, Bool, true, false, ◌⊎◌,
  inl, inr, Option, none, some, List, [], ◌∷◌, arith, length, get_or, set, ◌∙◌, ==_iff, Bool-cases,
  Option-cases, if◌then◌else◌, if-both,
}
use pace.Prelude.Int.{ℤ}
use pace.Prelude.Bytes.{Bytes, bytes_eq, bytes_eq_iff}
use pace.Prelude.Assoc
use pace.Prelude.Assoc.{Assoc, lookup-delete}
use pace.Registry.Shards.{
  shard_at_same, length-put_shard, lookup-put_shard, shard_at-lt, lookup-shard,
}
use pace.Registry.{
  BucketApi, Registry, Shard, Entry, Snapshot, empty_shard, shard_at, shard_for, lookup, put_shard,
  through,
}

-- What is found, if anything, has the property.
abbrev pub Found {ℓ κ} : {A : Type ℓ} → (A → Type κ) → Option A → Type κ
Found P none = Unit
Found P (some a) = P a

module _ {Bkt : Type 0} where
  -- The same entry, or nothing.
  abbrev pub Descends : Option (Entry Bkt) → Option (Entry Bkt) → Type 0
  Descends o none = Unit
  Descends none (some e) = ⊥
  Descends (some d) (some e) = e.id ≡ d.id

  -- No two keys share an entry, and the ids of later entries are new.
  pub record IsOwned (r : Registry Bkt) : Type 0 where
    pub below : (k : Bytes) → Found (λ (e : Entry Bkt). e.id < r.next_id) (lookup r k)
    pub owned :
        (k j : Bytes) (d e : Entry Bkt)
        → lookup r k ≡ some d
        → lookup r j ≡ some e
        → d.id ≡ e.id
        → k ≡ j

  -- The entry with this id was made, and no key but `owner` has it.
  pub record Belongs (id : ℕ) (owner : Bytes) (r : Registry Bkt) : Type 0 where
    pub spent : id < r.next_id
    pub only : (j : Bytes) (e : Entry Bkt) → lookup r j ≡ some e → e.id ≡ id → j ≡ owner

  -- From `r` to `q` no entry is made.
  pub record Shrinks (r q : Registry Bkt) : Type 0 where
    pub same_id : r.next_id ≡ q.next_id
    pub descends : (k : Bytes) → Descends (lookup r k) (lookup q k)

  pub Descends-id :
      (o : Option (Entry Bkt)) (e : Entry Bkt)
      → Descends o (some e)
      → (d : Entry Bkt) × (o ≡ some d) × (e.id ≡ d.id)
  Descends-id none e h = absurd h
  Descends-id (some d) e h = (d, refl, h)

  pub Descends-refl : (o : Option (Entry Bkt)) → Descends o o
  Descends-refl none = tt
  Descends-refl (some e) = refl

  pub Descends-trans : (o p q : Option (Entry Bkt)) → Descends o p → Descends p q → Descends o q
  Descends-trans o p none h k = tt
  Descends-trans o none (some e) h k = absurd k
  Descends-trans none (some d) (some e) h k = absurd h
  Descends-trans (some c) (some d) (some e) h k = cc

  pub Shrinks-IsOwned : (r q : Registry Bkt) → Shrinks r q → IsOwned r → IsOwned q
  Shrinks-IsOwned r q s v = record {
    below = λ k. under k (lookup r k) (lookup q k) (s.descends k) (v.below k);
    owned = λ k j d e p h same.
        let (d', dp, di) =
          Descends-id (lookup r k) d (subst (Descends (lookup r k)) p (s.descends k)) in
        let (e', ep, ei) =
          Descends-id (lookup r j) e (subst (Descends (lookup r j)) h (s.descends j)) in
        v.owned k j d' e' dp ep (omega (arith, same, di, ei));
  }
    where
      under :
          (k : Bytes) (o p : Option (Entry Bkt))
          → Descends o p
          → Found (λ (e : Entry Bkt). e.id < r.next_id) o
          → Found (λ (e : Entry Bkt). e.id < q.next_id) p
      under k o none h b = tt
      under k none (some e) h b = absurd h
      under k (some d) (some e) h b = omega (arith, s.same_id, h, b)

  -- A write of a shard leaves a key what the new shard has, or what it had.
  get_or-set-Descends :
      (shs : List (Shard Bkt)) (i n : ℕ) (sh : Shard Bkt) (k : Bytes)
      → Descends (Assoc.lookup k (get_or shs i empty_shard).keys) (Assoc.lookup k sh.keys)
      → Descends
          (Assoc.lookup k (get_or shs n empty_shard).keys)
          (Assoc.lookup k (get_or (set shs i sh) n empty_shard).keys)
  unfolding Assoc.lookup
  get_or-set-Descends [] i n sh k h = tt
  get_or-set-Descends (s ∷ shs) zero zero sh k h = h
  get_or-set-Descends (s ∷ shs) zero (suc n) sh k h = Descends-refl _
  get_or-set-Descends (s ∷ shs) (suc i) zero sh k h = Descends-refl _
  get_or-set-Descends (s ∷ shs) (suc i) (suc n) sh k h = get_or-set-Descends shs i n sh k h

  pub put_shard-Shrinks :
      (r : Registry Bkt) (i : ℕ) (sh : Shard Bkt)
      → ((k : Bytes)
          → Descends (Assoc.lookup k (get_or r.shards i empty_shard).keys) (Assoc.lookup k sh.keys))
      → Shrinks r (put_shard r i sh)
  unfolding put_shard lookup shard_for
  put_shard-Shrinks r i sh h = record {
    same_id = refl;
    descends = λ k.
        rw (shard_at_same (put_shard r i sh) r k (length-put_shard r i sh))
          (get_or-set-Descends r.shards i (shard_at r k) sh k (h k));
  }

  through-Descends :
      (id : ℕ) (f : Entry Bkt → Entry Bkt) (m : Assoc (Entry Bkt)) (k : Bytes)
      → ((e : Entry Bkt) → (f e).id ≡ e.id)
      → Descends (Assoc.lookup k m) (Assoc.lookup k (through id f m))
  unfolding Assoc.lookup
  through-Descends id f [] k h = tt
  through-Descends id f ((j, e) ∷ m) k h = elim (Bool-cases (bytes_eq j k)) [
    | inl p ↦ rw p (elim (Bool-cases (e.id == id)) [ inl q ↦ rw q (h e) | inr q ↦ rw q refl ])
    | inr p ↦ rw p (through-Descends id f m k h)
  ]

  -- A write through a pointer.
  pub write-Shrinks :
      (r : Registry Bkt) (key : Bytes) (id : ℕ) (f : Entry Bkt → Entry Bkt)
      → ((e : Entry Bkt) → (f e).id ≡ e.id)
      → Shrinks r (
          put_shard r
            (shard_at r key)
            (record (shard_for r key) { keys = through id f (shard_for r key).keys }))
  unfolding shard_for
  write-Shrinks r key id f h =
      put_shard-Shrinks r (shard_at r key) _ (λ k. through-Descends id f (shard_for r key).keys k h)

  -- What a write through the pointer to an entry leaves of a key.
  abbrev pub changed : ℕ → (Entry Bkt → Entry Bkt) → Option (Entry Bkt) → Option (Entry Bkt)
  changed id f none = none
  changed id f (some e) = some (if e.id == id then f e else e)

  lookup-through :
      (id : ℕ) (f : Entry Bkt → Entry Bkt) (m : Assoc (Entry Bkt)) (k : Bytes)
      → Assoc.lookup k (through id f m) ≡ changed id f (Assoc.lookup k m)
  unfolding Assoc.lookup
  lookup-through id f [] k = refl
  lookup-through id f ((j, e) ∷ m) k = elim (Bool-cases (bytes_eq j k)) [
    | inl p ↦ rw p refl
    | inr p ↦ rw p (lookup-through id f m k)
  ]

  pub lookup-write :
      (r : Registry Bkt) (key k : Bytes) (id : ℕ) (f : Entry Bkt → Entry Bkt)
      → 0 < length r.shards
      → lookup
          (put_shard r
            (shard_at r key)
            (record (shard_for r key) { keys = through id f (shard_for r key).keys }))
          k
        ≡ (if shard_at r k == shard_at r key then changed id f (lookup r k) else lookup r k)
  lookup-write r key k id f h =
      lookup-put_shard r (shard_at r key) _ k (shard_at-lt r key h)
      ∙ ground (
        arith,
        lookup-through id f (shard_for r key).keys k,
        lookup-shard r key k,
        ==_iff (shard_at r k) (shard_at r key),
      )

  -- The key whose entry it is sees the write, and no other does.
  pub lookup-write_owned :
      (r : Registry Bkt) (key k : Bytes) (d : Entry Bkt) (f : Entry Bkt → Entry Bkt)
      → 0 < length r.shards
      → IsOwned r
      → lookup r key ≡ some d
      → lookup
          (put_shard r
            (shard_at r key)
            (record (shard_for r key) { keys = through d.id f (shard_for r key).keys }))
          k
        ≡ (if bytes_eq key k then some (f d) else lookup r k)
  lookup-write_owned r key k d f h v p = lookup-write r key k d.id f h ∙ by_key (lookup r k) refl
    where
      by_key :
          (o : Option (Entry Bkt))
          → lookup r k ≡ o
          → (if shard_at r k == shard_at r key then changed d.id f o else o)
            ≡ (if bytes_eq key k then some (f d) else o)
      by_key none q = ground (arith, bytes_eq_iff key k, λ (s : key ≡ k). ap (lookup r) s, p)
      by_key (some e) q = ground (
        arith,
        bytes_eq_iff key k,
        λ (s : key ≡ k). ap (lookup r) s,
        λ (s : key ≡ k). ap (shard_at r) s,
        p,
        ==_iff e.id d.id,
        v.owned key k d e p q,
      )

  -- A registry without entries.
  empty_shards :
      (n i : ℕ) (k : Bytes)
      → Assoc.lookup k (get_or (replicate n (empty_shard {Bkt = Bkt})) i empty_shard).keys ≡ none
  unfolding Assoc.lookup
  empty_shards zero i k = refl
  empty_shards (suc n) zero k = refl
  empty_shards (suc n) (suc i) k = empty_shards n i k

  pub lookup-replicate :
      (n id ev : ℕ) (k : Bytes)
      → lookup
          (record { shards = replicate n (empty_shard {Bkt = Bkt}); next_id = id; evictions = ev })
          k
        ≡ none
  unfolding lookup shard_for
  lookup-replicate n id ev k = empty_shards n _ k

  pub replicate-IsOwned :
      (n id ev : ℕ)
      → IsOwned
          (record { shards = replicate n (empty_shard {Bkt = Bkt}); next_id = id; evictions = ev })
  replicate-IsOwned n id ev = record {
    below = λ k. rw (lookup-replicate n id ev k) tt;
    owned = λ k j d e p q same. cc (p, lookup-replicate n id ev k);
  }
