-- ===== src/Limiter/Budget/Local.antt =====
-- A limiter without a shared backend stays without one.
use pace.Prelude.{◌≡◌, refl, Bool, true, false, ◌&&◌, not, Option, none, some}
use pace.Prelude.Int.{ℤ}
use pace.Prelude.Bytes.{Bytes}
use pace.Float.{Float64}
use pace.Bucket.{RateLib, Bucket}
use pace.Bucket.Api.{bucket_api}
use pace.Gate.{Gate}
use pace.Registry.{Registry, Entry, get_or_create}
use pace.Limiter.Admission.{Limiter, Around, allow, allow_if, allow_through, allow_local}
use pace.Limiter.Reserve.{
  Reservation, reserve, reserve_if, after_reserve, ask_backend, kept, cancel, give_back,
}
use pace.Limiter.Acquire.{Meets, acquire, acquire_by}
use pace.Limiter.Engine
use pace.Limiter.Engine.{wait_if}
use pace.Limiter.Observer.Runs.{
  Call, allows, reserves, waits, acquires, cancels, finishes, works, shuts, Tally, perform,
}

module _ {fl : Float64} (rl : RateLib fl) where
  open rl use {Held}

  module _ (l : Limiter rl) (h : l.gate ≡ none) (r : Registry (Bucket rl)) (key : Bytes)
      (e : Entry (Bucket rl)) where
    allow_local-gate :
        (now : ℤ) (x : Bucket rl × Bool) → (allow_local rl l r key e now x).limiter.gate ≡ none
    allow_local-gate now (b, true) = h
    allow_local-gate now (b, false) = h

    allow_through-gate :
        (a : Around rl) (g : Option Gate) (s : Bool)
        → l.gate ≡ g
        → (allow_through rl l r key e a g s).limiter.gate ≡ none
    allow_through-gate a none s p = allow_local-gate a.now _
    allow_through-gate a (some g) s p = cc

    kept-gate :
        (now : ℤ) (b : Bucket rl) (held : Held) (late : Bool)
        → (kept rl l key now r e b held late).limiter.gate ≡ none
    kept-gate now b held true = h
    kept-gate now b held false = h

    ask_backend-gate :
        (now : ℤ) (a : Around rl) (g : Option Gate) (s : Bool) (b : Bucket rl) (held : Held)
        → l.gate ≡ g
        → (ask_backend rl l key now r e a g s b held).limiter.gate ≡ none
    ask_backend-gate now a none s b held p = kept-gate now b held _
    ask_backend-gate now a (some g) s b held p = cc

    after_reserve-gate :
        (now : ℤ) (a : Around rl) (ok : Bool) (taken : Bucket rl × Held)
        → (after_reserve rl l key now r e a ok taken).limiter.gate ≡ none
    after_reserve-gate now a false taken = h
    after_reserve-gate now a true taken = ask_backend-gate now a l.gate _ taken.0 taken.1 refl

    acquire_by-gate :
        (m : Meets rl) (g : Option Gate) (s : Bool)
        → l.gate ≡ g
        → (acquire_by rl l r key e m g s).limiter.gate ≡ none
    acquire_by-gate m none s p = h
    acquire_by-gate m (some g) s p = cc

  module _ (l : Limiter rl) (h : l.gate ≡ none) where
    pub gate-allow : (key : Bytes) (a : Around rl) → (allow rl l key a).limiter.gate ≡ none
    unfolding allow
    gate-allow key a = by_door l.shutting_down
      where
        by_door : (b : Bool) → (allow_if rl l key a b).limiter.gate ≡ none
        by_door true = h
        by_door false =
            let (q, e) = get_or_create (bucket_api rl) l.registry key a.owner in
            allow_through-gate l h q key e a l.gate _ refl

    gate-reserve : (key : Bytes) (a : Around rl) → (reserve rl l key a).limiter.gate ≡ none
    unfolding reserve
    gate-reserve key a = by_door l.shutting_down
      where
        by_door : (b : Bool) → (reserve_if rl l key a b).limiter.gate ≡ none
        by_door true = h
        by_door false =
            let (q, e) = get_or_create (bucket_api rl) l.registry key a.owner in
            after_reserve-gate l h q key e a.now a _ _

    gate-acquire : (key : Bytes) (m : Meets rl) → (acquire rl l key m).limiter.gate ≡ none
    unfolding acquire
    gate-acquire key m =
        let (q, e) = get_or_create (bucket_api rl) l.registry key m.owner in
        acquire_by-gate l h q key e m l.gate _ refl

    gate-wait : (key : Bytes) (m : Meets rl) → (Engine.wait rl l key m).limiter.gate ≡ none
    unfolding Engine.wait
    gate-wait key m = by_door l.shutting_down
      where
        by_door : (b : Bool) → (wait_if rl l key m b).limiter.gate ≡ none
        by_door true = h
        by_door false = gate-acquire key m

    gate-give_back :
        (res : Reservation rl) (now : ℤ) (x : Option Held) (go : Bool)
        → (give_back rl l res now x go).0.gate ≡ none
    gate-give_back res now (some held) true = h
    gate-give_back res now (some held) false = h
    gate-give_back res now none go = h

  pub gate-perform :
      (t : Tally rl) (c : Call rl) → t.limiter.gate ≡ none → (perform rl t c).limiter.gate ≡ none
  unfolding perform cancel
  gate-perform t (allows key a) h = gate-allow t.limiter h key a
  gate-perform t (reserves key a) h = gate-reserve t.limiter h key a
  gate-perform t (waits key m) h = gate-wait t.limiter h key m
  gate-perform t (acquires key m) h = gate-acquire t.limiter h key m
  gate-perform t (cancels res now) h =
      gate-give_back t.limiter h res now res.held (res.ok && not res.done)
  gate-perform t (finishes failed) h = h
  gate-perform t (works o) h = h
  gate-perform t shuts h = h
