-- ===== src/Limiter/Budget/Runs.antt =====
-- Allow calls of one key between any calls for other keys, counted against the credit of its bucket.
pub mod Bound
mod Tests
use pace.Prelude.{
  ℕ, ◌+◌, ◌*◌, ◌≤◌, ◌<◌, ◌≡◌, ◌≢◌, refl, sym, ap, ◌∙◌, subst, Bool, true, false, ◌&&◌, Option, none,
  some, List, [], ◌∷◌, ◌⊎◌, inl, inr, arith, Bool-cases, if◌then◌else◌, if-both,
}
use pace.Prelude.Int.{ℤ, pos, pos_part, neg_part, ◌≤ℤ◌, ◌-ℤ◌, -ℤ_parts}
use pace.Prelude.Bytes.{Bytes, bytes_eq, bytes_eq_iff, bytes_eq_refl}
use pace.Float.{Float64}
use pace.Bucket
use pace.Bucket.{RateLib, Bucket, Quota, usable_rate, new_bucket, allow_at}
use pace.Bucket.Api.{bucket_api}
use pace.Bucket.Coherence.{RateLaws}
use pace.Gate.{Gate}
use pace.Registry.{
  Registry, Entry, Owner, Snapshot, touch, lookup, get_or_create, found_or, create, create_if,
  new_entry,
}
use pace.Registry.Owned.{IsOwned, lookup-write_owned}
use pace.Limiter.Admission.{
  Limiter, Around, Answer, write, allow, allow_if, allow_local, allow_through,
}
use pace.Limiter.Observer.Runs.{Call, allows, Tally, perform}
use pace.Limiter.Isolation.Keys.{IsSound, Leaves, IsAway, Gets, created, write-IsSound, Leaves-refl}
use pace.Limiter.Isolation.Keys.Runs.{Elsewhere, perform-Leaves}
use pace.Limiter.Budget.{CreditLaws, granted, grants}
use pace.Limiter.Budget.Local.{gate-perform}

module _ {fl : Float64} {rl : RateLib fl} (rates : RateLaws rl) (laws : CreditLaws rl) (j : Bytes)
    (q : Quota fl.F) (limited : usable_rate fl q.rate ≢ fl.max_float) where
  open laws use {unit, gain, held}

  abbrev pub rate : fl.F
  rate = usable_rate fl q.rate

  -- The key's bucket holds at most `n` at `t`, or would if it were made now with the quota `q`.
  abbrev pub Within : ℕ → ℤ → Option (Entry (Bucket rl)) → Type 0
  Within n t none = pos_part q.burst * unit ≤ n
  Within n t (some e) = (rl.limit e.bucket.limiter ≡ rate) × (held e.bucket.limiter t ≤ n)

  -- By the later instant the bound has grown, unless there is no bucket.
  pub Within-later :
      (n : ℕ) (t u : ℤ) (o : Option (Entry (Bucket rl)))
      → t ≤ℤ u
      → Within n t o
      → Within (n + gain rate * pos_part (u -ℤ t)) u o
  Within-later n t u none h w = omega (arith, w)
  Within-later n t u (some e) h w =
      let grown = laws.held_later e.bucket.limiter t u (λ i. limited (sym (w.0) ∙ i)) h in
      let at_rate : held e.bucket.limiter u
          ≤ held e.bucket.limiter t + gain rate * pos_part (u -ℤ t) =
        subst (λ x. held e.bucket.limiter u ≤ held e.bucket.limiter t + gain x * pos_part (u -ℤ t))
          (w.0) grown in
      (w.0, omega (arith, at_rate, w.1))

  -- The entry that a key without saved state gets.
  new_created :
      (r : Registry (Bucket rl)) (now : ℤ)
      → lookup r j ≡ none
      → (create (bucket_api rl) r j q none now).1 ≡ new_entry (bucket_api rl) r.next_id q none now
  unfolding create lookup
  new_created r now h =
      ap (λ o. (create_if (bucket_api rl) r j (new_entry (bucket_api rl) r.next_id q none now) o).1)
        h

  new_entry-Within :
      (id n : ℕ) (now t : ℤ)
      → pos_part q.burst * unit ≤ n
      → Within n t (some (new_entry (bucket_api rl) id q none now))
  unfolding new_entry new_bucket
  new_entry-Within id n now t h =
      (rates.limit-new rate q.burst, omega (arith, laws.held-new rate q.burst t, h))

  -- An owner that has no store, wants the quota `q` for the key, and leaves it alone meanwhile.
  pub record Serves (o : Owner (bucket_api rl)) : Type 0 where
    pub unsaved : o.persists ≡ false
    pub wants : o.quota_for j ≡ q
    pub away : IsAway rl j o

  obtained :
      (r : Registry (Bucket rl)) (o : Owner (bucket_api rl)) (n : ℕ) (t : ℤ)
      → IsSound rl r
      → Serves o
      → Within n t (lookup r j)
      → let x = get_or_create (bucket_api rl) r j o in Gets rl j x × Within n t (some x.1)
  unfolding get_or_create
  obtained r o n t s v w = by_lookup (lookup r j) refl w
    where
      cold : Option (Snapshot fl.F) → Quota fl.F → Registry (Bucket rl) × Entry (Bucket rl)
      cold found quota = create (bucket_api rl) (o.others r) j quota found o.now

      theirs : Leaves rl j r (o.others r)
      theirs = v.away.leaves r s

      fresh :
          (found : Option (Snapshot fl.F)) (quota : Quota fl.F)
          → found ≡ none
          → quota ≡ q
          → lookup r j ≡ none
          → pos_part q.burst * unit ≤ n
          → Gets rl j (cold found quota) × Within n t (some (cold found quota).1)
      fresh found quota f k p h = (
        (created rl (o.others r) j theirs.sound quota found o.now).0,
        rw (f, k, new_created (o.others r) o.now (theirs.same ∙ p))
            (new_entry-Within (o.others r).next_id n o.now t h),
      )

      by_lookup :
          (f : Option (Entry (Bucket rl)))
          → lookup r j ≡ f
          → Within n t f
          → let x =
              found_or
                (bucket_api rl)
                r
                (cold (if o.persists then o.load j else none) (o.quota_for j))
                f in
            Gets rl j x × Within n t (some x.1)
      by_lookup (some e) p h = (record { sound = s; found = p }, h)
      by_lookup none p h =
          fresh (if o.persists then o.load j else none) (o.quota_for j) (rw (v.unsaved) refl)
            v.wants p h

  -- What a call at `t` leaves of a bound, having let one request through or none.
  pub record Pays (n : ℕ) (t : ℤ) (ok : Bool) (r : Registry (Bucket rl)) : Type 0 where
    pub sound : IsSound rl r
    pub rest : ℕ
    pub paid : rest + (if ok then unit else 0) ≤ n
    pub within : Within rest t (lookup r j)

  rewritten :
      (r : Registry (Bucket rl)) (e : Entry (Bucket rl)) (now : ℤ) (b : Bucket rl)
      → IsSound rl r
      → lookup r j ≡ some e
      → lookup (write rl r j e.id (λ x. record (touch x now) { bucket = b })) j
        ≡ some (record (touch e now) { bucket = b })
  unfolding write touch
  rewritten r e now b s p =
      let f : Entry (Bucket rl) → Entry (Bucket rl) = λ x. record (touch x now) { bucket = b } in
      lookup-write_owned r j j e f s.valid.sharded s.owned p ∙ rw (bytes_eq_refl j) refl

  local-Pays :
      (l : Limiter rl) (r : Registry (Bucket rl)) (e : Entry (Bucket rl)) (n : ℕ) (now : ℤ)
      → Gets rl j (r, e)
      → Within n now (some e)
      → let x = allow_local rl l r j e now (allow_at rl e.bucket now) in
        Pays n now x.ok x.limiter.registry
  unfolding allow_at touch
  local-Pays l r e n now g w =
      let x = rl.allow_n e.bucket.limiter now (pos 1) in
      by_ok (record e.bucket { limiter = x.0 }) x.1
        (omega (arith, laws.held-allow e.bucket.limiter now (λ i. limited (sym (w.0) ∙ i)), w.1))
        (rates.limit-allow e.bucket.limiter now (pos 1) ∙ w.0)
    where
      by_ok :
          (b : Bucket rl) (ok : Bool)
          → held b.limiter now + (if ok then unit else 0) ≤ n
          → rl.limit b.limiter ≡ rate
          → let x = allow_local rl l r j e now (b, ok) in Pays n now x.ok x.limiter.registry
      by_ok b true h k = record {
        sound =
            write-IsSound rl r j g.sound e.id (λ x. record (touch x now) { bucket = b })
              (λ x. refl);
        rest = held b.limiter now;
        paid = h;
        within = rw (rewritten r e now b g.sound g.found) (k, omega arith);
      }
      by_ok b false h k = record {
        sound =
            write-IsSound rl r j g.sound e.id (λ x. record (touch x now) { bucket = b })
              (λ x. refl);
        rest = held b.limiter now;
        paid = h;
        within = rw (rewritten r e now b g.sound g.found) (k, omega arith);
      }

  pub allow-Pays :
      (l : Limiter rl) (a : Around rl) (n : ℕ)
      → l.gate ≡ none
      → IsSound rl l.registry
      → Serves a.owner
      → Within n a.now (lookup l.registry j)
      → Pays n a.now (allow rl l j a).ok (allow rl l j a).limiter.registry
  unfolding allow
  allow-Pays l a n h s v w = by_door l.shutting_down
    where
      got :
          Gets rl j (get_or_create (bucket_api rl) l.registry j a.owner)
          × Within n a.now (some (get_or_create (bucket_api rl) l.registry j a.owner).1)
      got = obtained l.registry a.owner n a.now s v w

      by_gate :
          (g : Option Gate) (shared : Bool)
          → g ≡ none
          → let x = get_or_create (bucket_api rl) l.registry j a.owner in
            let y = allow_through rl l x.0 j x.1 a g shared in Pays n a.now y.ok y.limiter.registry
      by_gate none shared p =
          let (r, e) = get_or_create (bucket_api rl) l.registry j a.owner in
          local-Pays l r e n a.now got.0 got.1
      by_gate (some g) shared p = cc

      by_door :
          (b : Bool) → Pays n a.now (allow_if rl l j a b).ok (allow_if rl l j a b).limiter.registry
      by_door true = record { sound = s; rest = n; paid = omega arith; within = w }
      by_door false = by_gate l.gate _ h
