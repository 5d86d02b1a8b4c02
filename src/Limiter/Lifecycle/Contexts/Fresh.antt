-- ===== src/Limiter/Lifecycle/Contexts/Fresh.antt =====
-- The numbers that Enter gives out are new.
use pace.Prelude.{ℕ, ◌<◌, ◌≤◌, ◌≡◌, refl, false, List, [], ◌∷◌, arith}
use pace.Registry.{BucketApi, Registry}
use pace.Limiter.Lifecycle.{enter, leave, shut, cancel}
use pace.Limiter.Lifecycle.Contexts.{
  Scope, with_lifetime, release, enter_with, leave_with, cancel_all, run_started, opened, Event,
  enters, leaves, ends, runs, shuts, cancels, step, steps,
}

module _ (api : BucketApi) where
  -- No number is in use before it is given out.
  pub record IsFresh (s : Scope api) : Type 0 where
    pub fresh :
        (k : ℕ)
        → s.next ≤ k
        → (s.hooked k ≡ false) × ((s.started k ≡ false) × (s.cancelled k ≡ false))

  pub opened-IsFresh : (r : Registry api.Bkt) → IsFresh (opened api r)
  unfolding opened
  opened-IsFresh r = record { fresh = λ k h. (refl, (refl, refl)) }

  -- A function that is called was returned by Enter.
  abbrev pub IsKnown : Scope api → Event → Type 0
  IsKnown s (leaves m) = m < s.next
  IsKnown s e = Unit

  abbrev pub Legal : Scope api → List Event → Type 0
  Legal s [] = Unit
  Legal s (e ∷ es) = IsKnown s e × Legal (step api s e) es

  step-IsFresh : (s : Scope api) (e : Event) → IsKnown s e → IsFresh s → IsFresh (step api s e)
  unfolding step enter_with with_lifetime enter shut cancel leave leave_with release cancel_all
      run_started
  step-IsFresh s (enters c) h f = record {
    fresh = λ k le.
        let old = f.fresh k (ground (arith, le)) in
        (ground (arith, le, old.0), (ground (arith, le, old.1.0), ground (arith, old.1.1)));
  }
  step-IsFresh s (leaves m) h f = record {
    fresh = λ k le.
        let old = f.fresh k le in
        (ground (arith, old.0), (old.1.0, ground (arith, h, le, old.1.1)));
  }
  step-IsFresh s (ends m) h f = record { fresh = f.fresh }
  step-IsFresh s (runs m) h f = record {
    fresh = λ k le.
        let old = f.fresh k (ground (arith, le)) in
        let used = f.fresh m in
        (
          ground (arith, old.0),
          (ground (arith, old.1.0), ground (arith, le, used, old.1.0, old.1.1)),
        );
  }
  step-IsFresh s shuts h f = record { fresh = f.fresh }
  step-IsFresh s cancels h f = record {
    fresh = λ k le. let old = f.fresh k le in (refl, (ground (arith, old.0, old.1.0), old.1.1));
  }

  pub steps-IsFresh :
      (s : Scope api) (es : List Event) → Legal s es → IsFresh s → IsFresh (steps api s es)
  steps-IsFresh s [] h f = f
  steps-IsFresh s (e ∷ es) h f = steps-IsFresh (step api s e) es h.1 (step-IsFresh s e h.0 f)
