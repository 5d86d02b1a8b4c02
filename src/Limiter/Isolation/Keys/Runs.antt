-- ===== src/Limiter/Isolation/Keys/Runs.antt =====
-- A key of a limiter while any calls are made for other keys.
use pace.Prelude.{
  ℕ, ◌==◌, ==_iff, ◌≡◌, ◌≢◌, refl, sym, ◌∙◌, subst, Bool, true, false, not, ◌&&◌, Option, none,
  some, List, [], ◌∷◌, arith, All, if-both,
}
use pace.Prelude.Int.{ℤ}
use pace.Prelude.Bytes.{Bytes}
use pace.Float.{Float64}
use pace.Bucket
use pace.Bucket.{RateLib, Bucket, Quota}
use pace.Bucket.Api.{bucket_api}
use pace.Config.{Config}
use pace.Registry.{
  Registry, Entry, touch, requote, lookup, shard_at, put_shard, reload_key, reload_if,
}
use pace.Registry.Owned.{Found, lookup-write, changed}
use pace.Registry.Owned.Keys.{step-Keeps}
use pace.Registry.Run
use pace.Registry.Run.{
  Op, creates, touches, evicts, deletes, sweeps, drops, reloads, reloads_key, reports, step-IsValid,
}
use pace.Limiter.Admission.{Limiter, write}
use pace.Limiter.Reserve.{Reservation, cancel, give_back}
use pace.Limiter.Engine
use pace.Limiter.Observer.Runs.{
  Call, allows, reserves, waits, acquires, cancels, finishes, works, shuts, Tally, perform,
  perform_all,
}
use pace.Limiter.Isolation.Keys.{
  IsSound, Leaves, IsAway, Leaves-refl, Leaves-trans, other_key, created, written, write-IsSound,
  allow-Leaves, reserve-Leaves, wait-Leaves, acquire-Leaves,
}
use pace.Registry.Gc.Counts.{gone}
use pace.Registry.{shard_for}

module _ {fl : Float64} (rl : RateLib fl) where
  open rl use {Held}

  -- The entry of the key, if it has one, is not this one.
  abbrev pub Misses : ℕ → Option (Entry (Bucket rl)) → Type 0
  Misses id = Found (λ (e : Entry (Bucket rl)). e.id ≢ id)

  changed_missed :
      (id : ℕ) (f : Entry (Bucket rl) → Entry (Bucket rl)) (o : Option (Entry (Bucket rl)))
      → Misses id o
      → changed id f o ≡ o
  changed_missed id f none h = refl
  changed_missed id f (some e) h = ground (arith, ==_iff e.id id, h)

  -- The critical sections that are about another key, or about an entry that is not this key's.
  abbrev pub Apart : Bytes → Op (bucket_api rl) → Option (Entry (Bucket rl)) → Type 0
  Apart j (creates key q found now) o = key ≢ j
  Apart j (touches key id now) o = Misses id o
  Apart j (evicts key) o = key ≢ j
  Apart j (reloads_key key now q) o = key ≢ j
  Apart j (reports n) o = Unit
  Apart j _ o = ⊥

  module _ (j : Bytes) (r : Registry (Bucket rl)) (s : IsSound rl r) where
    -- A write through a pointer to another entry.
    missed :
        (key : Bytes) (id : ℕ) (f : Entry (Bucket rl) → Entry (Bucket rl))
        → ((x : Entry (Bucket rl)) → (f x).id ≡ x.id)
        → Misses id (lookup r j)
        → Leaves rl j r (write rl r key id f)
    unfolding write
    missed key id f same h = record {
      sound = write-IsSound rl r key s id f same;
      same =
          lookup-write r key j id f s.valid.sharded
          ∙ if-both (λ x. x ≡ lookup r j) (shard_at r j == shard_at r key) _ _
              (changed_missed id f (lookup r j) h) refl;
    }

    evicted_same :
        (key : Bytes) → key ≢ j → lookup (Run.step (bucket_api rl) r (evicts key)) j ≡ lookup r j
    unfolding Run.step
    evicted_same key n = by_lookup (lookup r key)
      where
        by_lookup :
            (o : Option (Entry (Bucket rl)))
            → lookup (Run.evicted_if (bucket_api rl) r key o) j ≡ lookup r j
        by_lookup none = refl
        by_lookup (some e) =
            gone (bucket_api rl) r key j s.valid.sharded ∙ other_key rl key j none (lookup r j) n

    reported_same : (n : ℕ) → lookup (Run.step (bucket_api rl) r (reports n)) j ≡ lookup r j
    unfolding Run.step lookup shard_for shard_at
    reported_same n = refl

    reloaded_same :
        (key : Bytes) (now : ℤ) (q : Bytes → Quota fl.F)
        → key ≢ j
        → lookup (reload_key (bucket_api rl) r key now q).0 j ≡ lookup r j
    unfolding reload_key write put_shard
    reloaded_same key now q n = by_lookup (lookup r key) refl
      where
        by_lookup :
            (o : Option (Entry (Bucket rl)))
            → lookup r key ≡ o
            → lookup (reload_if (bucket_api rl) r key now q o).0 j ≡ lookup r j
        by_lookup none p = refl
        by_lookup (some e) p =
            (written rl r key s j e (requote (bucket_api rl) now (q key)) n (λ x. refl) p).same

    works-same :
        (o : Op (bucket_api rl))
        → Apart j o (lookup r j)
        → lookup (Run.step (bucket_api rl) r o) j ≡ lookup r j
    unfolding Run.step touch write put_shard
    works-same (creates key q found now) h = (created rl r key s q found now).1 j h
    works-same (touches key id now) h = (missed key id (λ e. touch e now) (λ x. refl) h).same
    works-same (evicts key) h = evicted_same key h
    works-same (reloads_key key now q) h = reloaded_same key now q h
    works-same (reports n) h = reported_same n
    works-same (deletes x) h = absurd h
    works-same (sweeps i now cutoff notify) h = absurd h
    works-same (drops i) h = absurd h
    works-same (reloads i clock q) h = absurd h

  module _ (j : Bytes) where
    -- The calls that are about other keys, for a key with the entry `o` or none; a reservation of
    -- another key is not held in this key's entry.
    abbrev pub Elsewhere : Option (Entry (Bucket rl)) → Call rl → Type 0
    Elsewhere o (allows key a) = (key ≢ j) × IsAway rl j a.owner
    Elsewhere o (reserves key a) = (key ≢ j) × IsAway rl j a.owner
    Elsewhere o (waits key m) = (key ≢ j) × IsAway rl j m.owner
    Elsewhere o (acquires key m) = (key ≢ j) × IsAway rl j m.owner
    Elsewhere o (cancels res now) = Misses res.id o
    Elsewhere o (finishes failed) = Unit
    Elsewhere o (works w) = Apart j w o
    Elsewhere o shuts = Unit

    give_back-Leaves :
        (l : Limiter rl) (res : Reservation rl) (now : ℤ) (h : Option Held) (go : Bool)
        → IsSound rl l.registry
        → Misses res.id (lookup l.registry j)
        → Leaves rl j l.registry (give_back rl l res now h go).0.registry
    give_back-Leaves l res now (some held) true s m =
        missed j l.registry s res.key res.id
          (λ x. record x { bucket = Bucket.cancel_at rl x.bucket held now }) (λ x. refl) m
    give_back-Leaves l res now (some held) false s m = Leaves-refl rl j l.registry s
    give_back-Leaves l res now none go s m = Leaves-refl rl j l.registry s

    pub perform-Leaves :
        (t : Tally rl) (c : Call rl)
        → IsSound rl t.limiter.registry
        → Elsewhere (lookup t.limiter.registry j) c
        → Leaves rl j t.limiter.registry (perform rl t c).limiter.registry
    unfolding perform cancel
    perform-Leaves t (allows key a) s h = allow-Leaves rl t.limiter s key j h.0 a h.1
    perform-Leaves t (reserves key a) s h = reserve-Leaves rl t.limiter s key j h.0 a h.1
    perform-Leaves t (waits key m) s h = wait-Leaves rl t.limiter s key j h.0 m h.1
    perform-Leaves t (acquires key m) s h = acquire-Leaves rl t.limiter s key j h.0 m h.1
    perform-Leaves t (cancels res now) s h =
        give_back-Leaves t.limiter res now res.held (res.ok && not res.done) s h
    perform-Leaves t (finishes failed) s h = Leaves-refl rl j t.limiter.registry s
    perform-Leaves t (works o) s h = record {
      sound = record {
        valid = step-IsValid (bucket_api rl) t.limiter.registry o s.valid;
        owned = (step-Keeps (bucket_api rl) t.limiter.registry o s.valid).owned s.owned;
      };
      same = works-same j t.limiter.registry s o h;
    }
    perform-Leaves t shuts s h = Leaves-refl rl j t.limiter.registry s

    perform_all-Leaves :
        (t : Tally rl) (cs : List (Call rl)) (o : Option (Entry (Bucket rl)))
        → IsSound rl t.limiter.registry
        → lookup t.limiter.registry j ≡ o
        → All (Elsewhere o) cs
        → Leaves rl j t.limiter.registry (perform_all rl t cs).limiter.registry
    unfolding perform_all
    perform_all-Leaves t [] o s p h = Leaves-refl rl j t.limiter.registry s
    perform_all-Leaves t (c ∷ cs) o s p h =
        let first = perform-Leaves t c s (subst (λ x. Elsewhere x c) (sym p) h.0) in
        Leaves-trans rl j t.limiter.registry (perform rl t c).limiter.registry _ first
          (perform_all-Leaves (perform rl t c) cs o first.sound (first.same ∙ p) h.1)

    -- Keys do not affect one another: whatever Allow, Reserve, Wait, Acquire and Cancel are called for other
    -- keys, whichever other keys are created, evicted or reloaded, and through whatever pointers their
    -- entries are touched, also while a shutdown begins, this key has the tokens and the quota at
    -- every later instant that it would have had without them. What other goroutines do in the middle
    -- of those calls is about other keys too.
    pub tokens-perform_all :
        (t : Tally rl) (cs : List (Call rl)) (hook : Option (Bytes → Quota fl.F → Quota fl.F))
        (c : Config fl.F) (now : ℤ)
        → IsSound rl t.limiter.registry
        → All (Elsewhere (lookup t.limiter.registry j)) cs
        → (Engine.tokens rl (perform_all rl t cs).limiter j now ≡ Engine.tokens rl t.limiter j now)
          × (Engine.quota rl hook c (perform_all rl t cs).limiter j
              ≡ Engine.quota rl hook c t.limiter j)
    unfolding Engine.tokens Engine.quota
    tokens-perform_all t cs hook c now s h =
        let same = (perform_all-Leaves t cs _ s refl h).same in
        (rw (same, Engine.tokens) refl, rw (same, Engine.quota) refl)
