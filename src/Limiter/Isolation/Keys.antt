-- ===== src/Limiter/Isolation/Keys.antt =====
-- The calls that spend one key's tokens, seen from the other keys.
pub mod Runs
use pace.Prelude.{
  ℕ, ◌<◌, ◌≡◌, ◌≢◌, refl, sym, ap, ◌∙◌, subst, Bool, true, false, Option, none, some, List, [], ◌∷◌,
  arith, length, if◌then◌else◌, if-both,
}
use pace.Prelude.Int.{ℤ}
use pace.Prelude.Bytes.{Bytes, bytes_eq, bytes_eq_iff, bytes_eq_refl}
use pace.Float.{Float64}
use pace.Bucket
use pace.Bucket.{RateLib, Bucket, Quota}
use pace.Bucket.Api.{bucket_api}
use pace.Registry.{
  Registry, Entry, Owner, touch, lookup, get_or_create, found_or, create, new_entry, Snapshot,
}
use pace.Registry.Create.{lookup-create}
use pace.Registry.Preserve.{create-IsValid}
use pace.Registry.Population.{IsValid}
use pace.Registry.Reload.{write-IsValid}
use pace.Registry.Owned.{IsOwned, Shrinks-IsOwned, write-Shrinks, lookup-write_owned, lookup-write}
use pace.Registry.Owned.Keys.{create-Keeps}
use pace.Limiter.Admission.{Limiter, Around, Answer, write, allow, allow_if}
use pace.Limiter.Reserve.{Reservation, Reserved, reserve, reserve_if, cancel, give_back}
use pace.Limiter.Acquire.{Meets, acquire}
use pace.Limiter.Engine
use pace.Limiter.Engine.{wait_if}
use pace.Limiter.Isolation.{Writes, allow_through-Writes, after_reserve-Writes, acquire_by-Writes}

module _ {fl : Float64} (rl : RateLib fl) where
  -- The registry is well-formed, and each entry is one key's.
  pub record IsSound (r : Registry (Bucket rl)) : Type 0 where
    pub valid : IsValid r
    pub owned : IsOwned r

  -- From `r` to `q` the registry stays sound, and what key `j` has does not change.
  pub record Leaves (j : Bytes) (r q : Registry (Bucket rl)) : Type 0 where
    pub sound : IsSound q
    pub same : lookup q j ≡ lookup r j

  -- What others do in the middle of a call is nothing to key `j`.
  pub record IsAway (j : Bytes) (o : Owner (bucket_api rl)) : Type 0 where
    pub leaves : (r : Registry (Bucket rl)) → IsSound r → Leaves j r (o.others r)

  pub Leaves-refl : (j : Bytes) (r : Registry (Bucket rl)) → IsSound r → Leaves j r r
  Leaves-refl j r s = record { sound = s; same = refl }

  pub Leaves-trans :
      (j : Bytes) (r q s : Registry (Bucket rl)) → Leaves j r q → Leaves j q s → Leaves j r s
  Leaves-trans j r q s a b = record { sound = b.sound; same = b.same ∙ a.same }

  pub other_key :
      {A : Type 0} (key j : Bytes) (x y : A) → key ≢ j → (if bytes_eq key j then x else y) ≡ y
  other_key key j x y n = ground (arith, bytes_eq_iff key j)

  -- The registry and the entry that a call gets, whether the key was in memory or not.
  pub record Gets (key : Bytes) (x : Registry (Bucket rl) × Entry (Bucket rl)) : Type 0 where
    pub sound : IsSound x.0
    pub found : lookup x.0 key ≡ some x.1

  module _ (r : Registry (Bucket rl)) (key : Bytes) (s : IsSound r) where
    pub created :
        (q : Quota fl.F) (found : Option (Snapshot fl.F)) (now : ℤ)
        → Gets key (create (bucket_api rl) r key q found now)
          × ((j : Bytes)
              → key ≢ j
              → lookup (create (bucket_api rl) r key q found now).0 j ≡ lookup r j)
    created q found now =
        let c = create (bucket_api rl) r key q found now in
        (
          record {
            sound = record {
              valid = create-IsValid (bucket_api rl) r key q found now s.valid;
              owned = (create-Keeps (bucket_api rl) r key q found now s.valid).owned s.owned;
            };
            found =
                subst (λ b. lookup c.0 key ≡ (if b then some c.1 else lookup r key))
                  (bytes_eq_refl key)
                  (lookup-create (bucket_api rl) r key key s.valid.sharded q found now).0;
          },
          λ j n.
              (lookup-create (bucket_api rl) r key j s.valid.sharded q found now).0
              ∙ other_key key j (some c.1) (lookup r j) n,
        )

    pub write-IsSound :
        (id : ℕ) (f : Entry (Bucket rl) → Entry (Bucket rl))
        → ((x : Entry (Bucket rl)) → (f x).id ≡ x.id)
        → IsSound (write rl r key id f)
    unfolding write
    write-IsSound id f same = record {
      valid = write-IsValid r key id f s.valid;
      owned = Shrinks-IsOwned r _ (write-Shrinks r key id f same) s.owned;
    }

    pub written :
        (j : Bytes) (e : Entry (Bucket rl)) (f : Entry (Bucket rl) → Entry (Bucket rl))
        → key ≢ j
        → ((x : Entry (Bucket rl)) → (f x).id ≡ x.id)
        → lookup r key ≡ some e
        → Leaves j r (write rl r key e.id f)
    unfolding write
    written j e f n same p = record {
      sound = write-IsSound e.id f same;
      same =
          lookup-write_owned r key j e f s.valid.sharded s.owned p
          ∙ other_key key j (some (f e)) (lookup r j) n;
    }

  pub get_or_create-Leaves :
      (r : Registry (Bucket rl)) (key j : Bytes) (o : Owner (bucket_api rl))
      → IsSound r
      → IsAway j o
      → key ≢ j
      → let x = get_or_create (bucket_api rl) r key o in Gets key x × Leaves j r x.0
  unfolding get_or_create
  get_or_create-Leaves r key j o s away n = by_lookup (lookup r key) refl
    where
      found : Option (Snapshot fl.F)
      found = if o.persists then o.load key else none

      cold : Registry (Bucket rl) × Entry (Bucket rl)
      cold = create (bucket_api rl) (o.others r) key (o.quota_for key) found o.now

      by_lookup :
          (f : Option (Entry (Bucket rl)))
          → lookup r key ≡ f
          → Gets key (found_or (bucket_api rl) r cold f)
            × Leaves j r (found_or (bucket_api rl) r cold f).0
      by_lookup none p =
          let theirs = away.leaves r s in
          let (gets, same) = created (o.others r) key theirs.sound (o.quota_for key) found o.now in
          (gets, record { sound = gets.sound; same = same j n ∙ theirs.same })
      by_lookup (some e) p = (record { sound = s; found = p }, Leaves-refl j r s)

  Writes-Leaves :
      (q m : Registry (Bucket rl)) (key j : Bytes) (e : Entry (Bucket rl)) (now : ℤ)
      → key ≢ j
      → IsSound q
      → lookup q key ≡ some e
      → Writes rl q key e now m
      → Leaves j q m
  unfolding touch
  Writes-Leaves q m key j e now n s p (b, w) =
      subst (Leaves j q) (sym w)
        (written q key s j e (λ x. record (touch x now) { bucket = b }) n (λ x. refl) p)

  module _ (l : Limiter rl) (s : IsSound l.registry) (key j : Bytes) (n : key ≢ j) where
    -- Any call that gets the key's entry and then writes through it.
    through_entry :
        (o : Owner (bucket_api rl)) (now : ℤ) (m : Registry (Bucket rl))
        → IsAway j o
        → (let x = get_or_create (bucket_api rl) l.registry key o in Writes rl x.0 key x.1 now m)
        → Leaves j l.registry m
    through_entry o now m away w =
        let (q, e) = get_or_create (bucket_api rl) l.registry key o in
        let (gets, kept) = get_or_create-Leaves l.registry key j o s away n in
        Leaves-trans j l.registry q m kept (Writes-Leaves q m key j e now n gets.sound gets.found w)

    pub allow-Leaves :
        (a : Around rl) → IsAway j a.owner → Leaves j l.registry (allow rl l key a).limiter.registry
    unfolding allow
    allow-Leaves a away = by_door l.shutting_down
      where
        by_door : (b : Bool) → Leaves j l.registry (allow_if rl l key a b).limiter.registry
        by_door true = Leaves-refl j l.registry s
        by_door false =
            let (q, e) = get_or_create (bucket_api rl) l.registry key a.owner in
            through_entry a.owner a.now _ away (allow_through-Writes rl l q key e a l.gate _)

    pub reserve-Leaves :
        (a : Around rl)
        → IsAway j a.owner
        → Leaves j l.registry (reserve rl l key a).limiter.registry
    unfolding reserve
    reserve-Leaves a away = by_door l.shutting_down
      where
        by_door : (b : Bool) → Leaves j l.registry (reserve_if rl l key a b).limiter.registry
        by_door true = Leaves-refl j l.registry s
        by_door false =
            let (q, e) = get_or_create (bucket_api rl) l.registry key a.owner in
            through_entry a.owner a.now _ away (after_reserve-Writes rl l q key e a.now a _ _)

    pub acquire-Leaves :
        (m : Meets rl)
        → IsAway j m.owner
        → Leaves j l.registry (acquire rl l key m).limiter.registry
    unfolding acquire
    acquire-Leaves m away =
        let (q, e) = get_or_create (bucket_api rl) l.registry key m.owner in
        through_entry m.owner m.now _ away (acquire_by-Writes rl l q key e m l.gate _)

    pub wait-Leaves :
        (m : Meets rl)
        → IsAway j m.owner
        → Leaves j l.registry (Engine.wait rl l key m).limiter.registry
    unfolding Engine.wait
    wait-Leaves m away = by_door l.shutting_down
      where
        by_door : (b : Bool) → Leaves j l.registry (wait_if rl l key m b).limiter.registry
        by_door true = Leaves-refl j l.registry s
        by_door false = acquire-Leaves m away
