-- ===== src/Registry/Owned/Keys.antt =====
-- Who owns which entry of registry/registry.go, through any interleaving of its calls.
use pace.Prelude.{
  ℕ, ◌+◌, ◌<◌, ◌≡◌, refl, subst, Option, none, some, List, [], ◌∷◌, arith, if◌then◌else◌, if-both,
}
use pace.Prelude.Int.{ℤ}
use pace.Prelude.Bytes.{Bytes, bytes_eq, bytes_eq_iff}
use pace.Prelude.Assoc
use pace.Registry.{
  BucketApi, Registry, Entry, Snapshot, shard_for, lookup, create, create_if, new_entry, add_entry,
  touch,
}
use pace.Registry.Create.{lookup-add_entry}
use pace.Registry.Owned.{
  Found, IsOwned, Belongs, Descends, Shrinks, Descends-id, Shrinks-IsOwned, write-Shrinks,
}
use pace.Registry.Owned.Steps.{
  evicts-Shrinks, delete_one-Shrinks, sweeps-Shrinks, drops-Shrinks, reloads-Shrinks,
  reload_key-Shrinks, same-Shrinks, Shrinks-refl,
}
use pace.Registry.Population.{IsValid}
use pace.Registry.Run.{
  Op, creates, touches, evicts, deletes, sweeps, drops, reloads, reloads_key, reports, step, run,
  step-IsValid,
}

module _ (api : BucketApi) where
  open api use {Bkt, Quo, Tok}

  module _ (r : Registry Bkt) (v : IsValid r) (o : IsOwned r) (key : Bytes) (e : Entry Bkt)
      (new : e.id ≡ r.next_id) where
    added :
        (k : Bytes)
        → lookup (add_entry api r key e) k ≡ (if bytes_eq key k then some e else lookup r k)
    added k = lookup-add_entry api r key k e v.sharded

    next_id-add_entry : (add_entry api r key e).next_id ≡ r.next_id + 1
    unfolding add_entry
    next_id-add_entry = refl

    add_entry-below :
        (k : Bytes)
        → Found
            (λ (d : Entry Bkt). d.id < (add_entry api r key e).next_id)
            (lookup (add_entry api r key e) k)
    add_entry-below k = rw (added k) (
        if-both (Found (λ (d : Entry Bkt). d.id < (add_entry api r key e).next_id)) (bytes_eq key k)
          _ _ (omega (arith, new, next_id-add_entry)) (older (lookup r k) (o.below k)))
      where
        older :
            (p : Option (Entry Bkt))
            → Found (λ (d : Entry Bkt). d.id < r.next_id) p
            → Found (λ (d : Entry Bkt). d.id < (add_entry api r key e).next_id) p
        older none h = tt
        older (some d) h = omega (arith, h, next_id-add_entry)

    old_id : (k : Bytes) (d : Entry Bkt) → lookup r k ≡ some d → d.id < r.next_id
    old_id k d p = subst (Found (λ (x : Entry Bkt). x.id < r.next_id)) p (o.below k)

    add_entry-owned :
        (k j : Bytes) (c d : Entry Bkt)
        → lookup (add_entry api r key e) k ≡ some c
        → lookup (add_entry api r key e) j ≡ some d
        → c.id ≡ d.id
        → k ≡ j
    add_entry-owned k j c d p q same = ground (
      arith,
      added k,
      added j,
      new,
      bytes_eq_iff key k,
      bytes_eq_iff key j,
      old_id k c,
      old_id j d,
      o.owned k j c d,
    )

    pub add_entry-IsOwned : IsOwned (add_entry api r key e)
    add_entry-IsOwned = record { below = add_entry-below; owned = add_entry-owned }

    add_entry-Belongs :
        (id : ℕ) (owner : Bytes) → Belongs id owner r → Belongs id owner (add_entry api r key e)
    add_entry-Belongs id owner b = record {
      spent = omega (arith, b.spent, next_id-add_entry);
      only = λ j d p same. ground (arith, added j, new, b.spent, b.only j d);
    }

  Shrinks-Belongs :
      (r q : Registry Bkt) (id : ℕ) (owner : Bytes)
      → Shrinks r q
      → Belongs id owner r
      → Belongs id owner q
  Shrinks-Belongs r q id owner s b = record {
    spent = omega (arith, b.spent, s.same_id);
    only = λ j e p same.
        let (d, dp, di) =
          Descends-id (lookup r j) e (subst (Descends (lookup r j)) p (s.descends j)) in
        b.only j d dp (omega (arith, same, di));
  }

  -- What holds after a call that makes an entry, or none.
  pub record Keeps (r q : Registry Bkt) : Type 0 where
    pub owned : IsOwned r → IsOwned q
    pub belongs : (id : ℕ) (owner : Bytes) → IsOwned r → Belongs id owner r → Belongs id owner q

  Shrinks-Keeps : (r q : Registry Bkt) → Shrinks r q → Keeps r q
  Shrinks-Keeps r q s = record {
    owned = Shrinks-IsOwned r q s;
    belongs = λ id owner o. Shrinks-Belongs r q id owner s;
  }

  pub create-Keeps :
      (r : Registry Bkt) (key : Bytes) (q : Quo) (found : Option (Snapshot Tok)) (now : ℤ)
      → IsValid r
      → Keeps r (create api r key q found now).0
  unfolding create
  create-Keeps r key q found now v = by_lookup (Assoc.lookup key (shard_for r key).keys)
    where
      e : Entry Bkt
      e = new_entry api r.next_id q found now

      new : (o : Option (Snapshot Tok)) → (new_entry api r.next_id q o now).id ≡ r.next_id
      new none = refl
      new (some s) = refl

      by_lookup : (o : Option (Entry Bkt)) → Keeps r (create_if api r key e o).0
      by_lookup none = record {
        owned = λ o. add_entry-IsOwned r v o key e (new found);
        belongs = λ id owner o. add_entry-Belongs r v o key e (new found) id owner;
      }
      by_lookup (some old) = record { owned = λ o. o; belongs = λ id owner o b. b }

  pub step-Keeps : (r : Registry Bkt) (o : Op api) → IsValid r → Keeps r (step api r o)
  unfolding step touch
  step-Keeps r (creates key q found now) v = create-Keeps r key q found now v
  step-Keeps r (touches key id now) v =
      Shrinks-Keeps r _ (write-Shrinks r key id (λ e. touch e now) (λ e. refl))
  step-Keeps r (evicts key) v = Shrinks-Keeps r _ (evicts-Shrinks api r key)
  step-Keeps r (deletes x) v = Shrinks-Keeps r _ (delete_one-Shrinks api r x)
  step-Keeps r (sweeps i now cutoff notify) v =
      Shrinks-Keeps r _ (sweeps-Shrinks api r i now cutoff notify v)
  step-Keeps r (drops i) v = Shrinks-Keeps r _ (drops-Shrinks api r i)
  step-Keeps r (reloads i clock q) v = Shrinks-Keeps r _ (reloads-Shrinks api r i clock q)
  step-Keeps r (reloads_key key now q) v = Shrinks-Keeps r _ (reload_key-Shrinks api r key now q)
  step-Keeps r (reports n) v = Shrinks-Keeps r _ (same-Shrinks r r _ refl refl (Shrinks-refl r))

  run-Keeps : (r : Registry Bkt) (os : List (Op api)) → IsValid r → Keeps r (run api r os)
  unfolding run
  run-Keeps r [] v = record { owned = λ o. o; belongs = λ id owner o b. b }
  run-Keeps r (o ∷ os) v =
      let first = step-Keeps r o v in
      let rest = run-Keeps (step api r o) os (step-IsValid api r o v) in
      record {
        owned = λ w. rest.owned (first.owned w);
        belongs =
            λ id owner w b. rest.belongs id owner (first.owned w) (first.belongs id owner w b);
      }

  -- However the callers' critical sections interleave, no two keys share an entry; and the entry that
  -- a key has now, to which callers may hold pointers, is never another key's, also after it was
  -- dropped and whatever was created since.
  pub run-Belongs :
      (r : Registry Bkt) (os : List (Op api)) (key : Bytes) (e : Entry Bkt)
      → IsValid r
      → IsOwned r
      → lookup r key ≡ some e
      → IsOwned (run api r os) × Belongs e.id key (run api r os)
  run-Belongs r os key e v o p =
      let k = run-Keeps r os v in
      (
        k.owned o,
        k.belongs e.id key o (record {
          spent = subst (Found (λ (x : Entry Bkt). x.id < r.next_id)) p (o.below key);
          only = λ j d q same. o.owned j key d e q p same;
        }),
      )
