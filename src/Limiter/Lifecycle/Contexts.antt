-- ===== src/Limiter/Lifecycle/Contexts.antt =====
-- Enter of limiter/api.go and withLifetime of limiter/lifecycle.go: the context that a request runs
-- under, and the function that releases it. The functions that context.AfterFunc starts run as steps
-- of their own.
pub mod Ends
pub mod Fresh
mod Tests
use pace.Prelude.{ℕ, ◌+◌, ◌==◌, Bool, true, false, not, ◌&&◌, ◌||◌, List, [], ◌∷◌, if◌then◌else◌}
use pace.Registry.{BucketApi, Registry}
use pace.Limiter.Lifecycle.{Lifecycle, start, enter, leave, shut, cancel}

-- A caller's context, or one that context.WithCancel made of another; the number says whose.
pub data Context : Type 0 where
  outer : ℕ → Context
  child : Context → ℕ → Context

pub data Event : Type 0 where
  enters : Context → Event
  leaves ends runs : ℕ → Event
  shuts cancels : Event

abbrev pub with : ℕ → (ℕ → Bool) → ℕ → Bool
with n f k = k == n || f k

abbrev pub without : ℕ → (ℕ → Bool) → ℕ → Bool
without n f k = not (k == n) && f k

module _ (api : BucketApi) where
  -- The limiter and the contexts around it: which callers' contexts have ended, which cancel functions
  -- were called, which functions wait for the end of l.ctx and which of these have started and not
  -- yet run. `next` is the first number that is free.
  pub record Scope : Type 0 where
    pub limiter : Lifecycle api
    pub ended : ℕ → Bool
    pub cancelled : ℕ → Bool
    pub hooked : ℕ → Bool
    pub started : ℕ → Bool
    pub next : ℕ

  unfoldable pub opened : Registry api.Bkt → Scope
  opened r = record {
    limiter = start api r;
    ended = λ k. false;
    cancelled = λ k. false;
    hooked = λ k. false;
    started = λ k. false;
    next = 0;
  }

  -- ctx.Err() != nil
  abbrev pub is_done : Scope → Context → Bool
  is_done s (outer n) = s.ended n
  is_done s (child c n) = s.cancelled n || is_done s c

  -- context.AfterFunc(l.ctx, cancel), with the number of `cancel`
  abbrev pub after_func : Scope → ℕ → Scope
  after_func s n =
      if s.limiter.cancelled
      then record s { started = with n s.started }
      else record s { hooked = with n s.hooked }

  unfoldable pub with_lifetime : Scope → Context → Scope × ℕ
  with_lifetime s c = (after_func (record s { next = s.next + 1 }) s.next, s.next)

  -- stop() and cancel(), the function that withLifetime returns.
  unfoldable pub release : Scope → ℕ → Scope
  release s n = record s { hooked = without n s.hooked; cancelled = with n s.cancelled }

  -- The context that Enter returns, and whether it let the caller in.
  unfoldable pub enter_with : Scope → Context → Scope × (Context × Bool)
  unfolding with_lifetime
  enter_with s c =
      let (l, ok) = enter api s.limiter in
      let (t, n) = with_lifetime (record s { limiter = l }) c in
      if ok then (t, (child c n, true)) else (s, (c, false))

  -- The function that Enter returns.
  unfoldable pub leave_with : Scope → ℕ → Scope
  unfolding release
  leave_with s n = let t = release s n in record t { limiter = leave api t.limiter }

  -- l.cancel(), which starts the functions that wait for it.
  unfoldable pub cancel_all : Scope → Scope
  cancel_all s = record s {
    limiter = cancel api s.limiter;
    hooked = λ k. false;
    started = λ k. s.hooked k || s.started k;
  }

  -- A function that was started runs.
  unfoldable pub run_started : Scope → ℕ → Scope
  run_started s n =
      if s.started n
      then record s { started = without n s.started; cancelled = with n s.cancelled }
      else s

  unfoldable pub step : Scope → Event → Scope
  unfolding enter_with leave_with cancel_all run_started
  step s (enters c) = (enter_with s c).0
  step s (leaves n) = leave_with s n
  step s (ends n) = record s { ended = with n s.ended }
  step s (runs n) = run_started s n
  step s shuts = record s { limiter = shut api s.limiter }
  step s cancels = cancel_all s

  abbrev pub steps : Scope → List Event → Scope
  steps s [] = s
  steps s (e ∷ es) = steps (step s e) es
