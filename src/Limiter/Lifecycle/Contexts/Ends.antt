-- ===== src/Limiter/Lifecycle/Contexts/Ends.antt =====
-- When the context that Enter returns ends.
use pace.Prelude.{ℕ, ◌<◌, ◌==◌, ◌≡◌, refl, ap, Bool, true, false, not, ◌||◌, List, [], ◌∷◌, arith}
use pace.Registry.{BucketApi}
use pace.Limiter.Lifecycle.{enter, leave, shut, cancel}
use pace.Limiter.Lifecycle.Contexts.{
  Context, child, Scope, is_done, with_lifetime, release, enter_with, leave_with, cancel_all,
  run_started, Event, enters, leaves, ends, runs, shuts, cancels, step, steps,
}
use pace.Limiter.Lifecycle.Contexts.Fresh.{IsFresh}

has_run : (a b c : Bool) → a ≡ false → (a || b) ≡ c → b ≡ c
has_run a b c h k = ground (arith, h, k)

module _ (api : BucketApi) where
  -- A number that was given out, and whose function has not been called: it waits for the limiter's
  -- context, or that has ended and it was started.
  record Waits (n : ℕ) (s : Scope api) : Type 0 where
    known : n < s.next
    waiting : s.hooked n ≡ not s.limiter.cancelled
    called : (s.started n || s.cancelled n) ≡ s.limiter.cancelled

  -- A number whose function has been called.
  record IsReleased (n : ℕ) (s : Scope api) : Type 0 where
    known : n < s.next
    unhooked : s.hooked n ≡ false
    over : s.cancelled n ≡ true

  -- The function for `n` is not called.
  abbrev pub Spares : ℕ → Event → Type 0
  Spares n (leaves m) = (n == m) ≡ false
  Spares n e = Unit

  abbrev pub Unleft : ℕ → List Event → Type 0
  Unleft n [] = Unit
  Unleft n (e ∷ es) = Spares n e × Unleft n es

  step-Waits : (n : ℕ) (s : Scope api) (e : Event) → Spares n e → Waits n s → Waits n (step api s e)
  unfolding step enter_with with_lifetime enter shut cancel leave leave_with release cancel_all
      run_started
  step-Waits n s (enters c) h w = record {
    known = ground (arith, w.known);
    waiting = ground (arith, w.known, w.waiting);
    called = ground (arith, w.known, w.called);
  }
  step-Waits n s (leaves m) h w = record {
    known = w.known;
    waiting = ground (arith, h, w.waiting);
    called = ground (arith, h, w.called);
  }
  step-Waits n s (ends m) h w = record { known = w.known; waiting = w.waiting; called = w.called }
  step-Waits n s (runs m) h w = record {
    known = ground (arith, w.known);
    waiting = ground (arith, w.waiting);
    called = ground (arith, w.called);
  }
  step-Waits n s shuts h w = record { known = w.known; waiting = w.waiting; called = w.called }
  step-Waits n s cancels h w = record {
    known = w.known;
    waiting = refl;
    called = ground (arith, w.waiting, w.called);
  }

  step-IsReleased :
      (n : ℕ) (s : Scope api) (e : Event) → IsReleased n s → IsReleased n (step api s e)
  unfolding step enter_with with_lifetime enter shut cancel leave leave_with release cancel_all
      run_started
  step-IsReleased n s (enters c) w = record {
    known = ground (arith, w.known);
    unhooked = ground (arith, w.known, w.unhooked);
    over = ground (arith, w.over);
  }
  step-IsReleased n s (leaves m) w = record {
    known = w.known;
    unhooked = ground (arith, w.unhooked);
    over = ground (arith, w.over);
  }
  step-IsReleased n s (ends m) w = record { known = w.known; unhooked = w.unhooked; over = w.over }
  step-IsReleased n s (runs m) w = record {
    known = ground (arith, w.known);
    unhooked = ground (arith, w.unhooked);
    over = ground (arith, w.over);
  }
  step-IsReleased n s shuts w = record { known = w.known; unhooked = w.unhooked; over = w.over }
  step-IsReleased n s cancels w = record { known = w.known; unhooked = refl; over = w.over }

  steps-IsReleased :
      (n : ℕ) (s : Scope api) (es : List Event) → IsReleased n s → IsReleased n (steps api s es)
  steps-IsReleased n s [] w = w
  steps-IsReleased n s (e ∷ es) w = steps-IsReleased n (step api s e) es (step-IsReleased n s e w)

  steps-Waits :
      (n : ℕ) (s : Scope api) (es : List Event) → Unleft n es → Waits n s → Waits n (steps api s es)
  steps-Waits n s [] h w = w
  steps-Waits n s (e ∷ es) h w = steps-Waits n (step api s e) es h.1 (step-Waits n s e h.0 w)

  enter_with-Waits :
      (s : Scope api) (c : Context)
      → IsFresh api s
      → (enter_with api s c).1.1 ≡ true
      → Waits s.next (enter_with api s c).0
  unfolding enter_with with_lifetime enter
  enter_with-Waits s c f h =
      let new = f.fresh s.next (omega arith) in
      record {
        known = ground (arith, h);
        waiting = ground (arith, h, new.0, new.1.0, new.1.1);
        called = ground (arith, h, new.0, new.1.0, new.1.1);
      }

  given :
      (s : Scope api) (c : Context)
      → (enter_with api s c).1.1 ≡ true
      → (enter_with api s c).1.0 ≡ child c s.next
  unfolding enter_with with_lifetime enter
  given s c h = ground (arith, h)

  -- A context that Enter has given out and that is not released ends exactly when the caller's
  -- context or the limiter's does, whatever happens in between, as soon as the function that
  -- the end of the limiter's context starts for it has run.
  pub entered_ends :
      (s : Scope api) (c : Context) (es : List Event)
      → IsFresh api s
      → (enter_with api s c).1.1 ≡ true
      → Unleft s.next es
      → (steps api (enter_with api s c).0 es).started s.next ≡ false
      → is_done api (steps api (enter_with api s c).0 es) (enter_with api s c).1.0 ≡ (
          (steps api (enter_with api s c).0 es).limiter.cancelled
          || is_done api (steps api (enter_with api s c).0 es) c)
  entered_ends s c es f h u k =
      let w = steps-Waits s.next _ es u (enter_with-Waits s c f h) in
      let last = steps api (enter_with api s c).0 es in
      rw (given s c h) (ap (λ x. x || is_done api last c) (has_run _ _ _ k w.called))

  -- The function that Enter returns ends the context for good and leaves nothing that waits for the
  -- limiter's, whatever happens afterwards.
  left-IsReleased :
      (s : Scope api) (n : ℕ) (es : List Event)
      → n < s.next
      → IsReleased n (steps api (leave_with api s n) es)
  unfolding leave_with release leave
  left-IsReleased s n es h =
      steps-IsReleased n _ es (record { known = h; unhooked = ground arith; over = ground arith })
