-- ===== src/Limiter/Lifecycle.antt =====
-- limiter/lifecycle.go: entering, closing and shutting down. Goroutines' steps interleave in any order.

pub mod Barrier
pub mod Calls
pub mod Contexts
pub mod Progress
pub mod Runs
mod Tests
use pace.Prelude.{
  ℕ, ◌+◌, ◌-◌, ◌++◌, Bool, true, false, Option, none, some, List, [], ◌∷◌, if◌then◌else◌,
}
use pace.Prelude.Int.{ℤ}
use pace.Registry.{BucketApi, Registry, Snapshot, snapshot_all}
use pace.Registry.Gc.{Note, drop_all, flushed}

-- What `finish` does besides: the store's final flush and its close.
pub data Act (Tok : Type 0) : Type 0 where
  flushes : List (Snapshot Tok) → Act Tok
  drops : List (Note Tok) → Act Tok
  closes_store : Act Tok

module _ (api : BucketApi) where
  open api use {Bkt, Tok}

  -- `active` is the count of activeWg, `gc_running` that of gcWg, `cancelled` is l.ctx's state, and
  -- `finished` is closeOnce's; `acts` is the latest first.
  pub record Lifecycle : Type 0 where
    pub shutting_down : Bool
    pub active : ℕ
    pub cancelled : Bool
    pub gc_running : Bool
    pub finished : Bool
    pub close_error : Option ℤ
    pub registry : Registry Bkt
    pub acts : List (Act Tok)

  unfoldable pub start : Registry Bkt → Lifecycle
  start r = record {
    shutting_down = false;
    active = 0;
    cancelled = false;
    gc_running = true;
    finished = false;
    close_error = none;
    registry = r;
    acts = [];
  }

  unfoldable pub enter : Lifecycle → Lifecycle × Bool
  enter l = if l.shutting_down then (l, false) else (record l { active = l.active + 1 }, true)

  -- activeWg.Done()
  unfoldable pub leave : Lifecycle → Lifecycle
  leave l = record l { active = l.active - 1 }

  -- The first part of close and of Shutdown.
  unfoldable pub shut : Lifecycle → Lifecycle
  shut l = record l { shutting_down = true }

  unfoldable pub cancel : Lifecycle → Lifecycle
  cancel l = record l { cancelled = true }

  -- gcLoop returns.
  unfoldable pub stop_gc : Lifecycle → Lifecycle
  stop_gc l = record l { gc_running = false }

  -- What the store is, and whether `finish` has an error from closing it.
  pub record Closing : Type 0 where
    pub now : ℤ
    pub persists : Bool
    pub observes : Bool
    pub is_closer : Bool
    pub error : Option ℤ

  abbrev if_closer : Bool → Option ℤ → Option ℤ
  if_closer true e = e
  if_closer false e = none

  -- closeOnce's function after both waits.
  unfoldable pub wind_up : Closing → Lifecycle → Lifecycle
  wind_up c l =
      let (dropped, notes) = drop_all api l.registry c.now c.observes in
      let flush = if c.persists then flushes (snapshot_all api l.registry c.now) ∷ [] else [] in
      let closing = if c.is_closer then closes_store ∷ [] else [] in
      record l {
        finished = true;
        registry = dropped;
        close_error = if_closer c.is_closer c.error;
        acts = closing ++ drops notes ∷ flush ++ l.acts;
      }
