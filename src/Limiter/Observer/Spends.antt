-- ===== src/Limiter/Observer/Spends.antt =====
-- What one call adds to the counters of limiter/stats.go, and that it keeps the registry well-formed.
use pace.Prelude.{
  ℕ, ◌+◌, ◌%◌, ◌^◌, ◌≡◌, refl, Bool, true, false, ◌&&◌, Option, none, some, List, [], ◌∷◌, arith,
  length, if◌then◌else◌, if-both,
}
use pace.Prelude.Int.{ℤ}
use pace.Prelude.Bytes.{Bytes}
use pace.Prelude.Word.{add_int64}
use pace.Float.{Float64}
use pace.Bucket
use pace.Bucket.{RateLib, Bucket, Quota}
use pace.Bucket.Api.{bucket_api}
use pace.Gate.{Gate, Taken, take}
use pace.Gate.Rounds.{Decision, is_none}
use pace.Gate.Rounds.Polling
use pace.Registry.{Registry, Entry, Owner, get_or_create, touch}
use pace.Registry.Population.{IsValid}
use pace.Registry.Reload.{write-IsValid}
use pace.Limiter.Admission.{
  Limiter, Counters, Around, write, spent, count_request, count_throttled, allow, allow_if,
  allow_local, allow_shared, allow_through,
}
use pace.Limiter.Admission.Outcomes.{get_or_create-IsValid}
use pace.Limiter.Reserve.{
  Reservation, Reserved, quiet, loud, kept, after_take, ask_backend, after_reserve, reserve_if,
  reserve,
}
use pace.Limiter.Acquire.{
  Way, parks, polls, Meets, count_delays, reported_delays, from_gate, acquire_by, acquire,
}
use pace.Limiter.Engine
use pace.Limiter.Engine.{wait_if}

-- The counter `b` is `n` more than `a`, as an int64 wraps.
abbrev pub Adds : ℕ → ℕ → ℕ → Type 0
Adds a n b = b % 2 ^ 64 ≡ (a + n) % 2 ^ 64

count_delays_adds :
    (c : Counters) (ds : List ℤ)
    → Adds c.throttled (length ds) (count_delays c ds).throttled
      × ((count_delays c ds).requests ≡ c.requests)
      × ((count_delays c ds).errors ≡ c.errors)
unfolding count_throttled add_int64
count_delays_adds c [] = (omega arith, refl, refl)
count_delays_adds c (d ∷ ds) =
    let rest = count_delays_adds (count_throttled c d) ds in (omega (arith, rest.0), rest.1, rest.2)

-- A call asks for one request, unless the limiter shuts down.
abbrev pub asked : Bool → ℕ
asked shutting = if shutting then 0 else 1

module _ {fl : Float64} (rl : RateLib fl) where
  open rl use {Held, held_ok, held_delay}

  -- From `l` to `m` the limiter stays well-formed, and its counters have gone up by so much.
  pub record Spends (asked told failed : ℕ) (l m : Limiter rl) : Type 0 where
    pub valid : IsValid m.registry
    pub same_door : m.shutting_down ≡ l.shutting_down
    pub requests : Adds l.stats.requests asked m.stats.requests
    pub throttled : Adds l.stats.throttled told m.stats.throttled
    pub errors : Adds l.stats.errors failed m.stats.errors

  idle-Spends : (l : Limiter rl) → IsValid l.registry → Spends 0 0 0 l l
  idle-Spends l v = record {
    valid = v;
    same_door = refl;
    requests = omega arith;
    throttled = omega arith;
    errors = omega arith;
  }

  module _ (l : Limiter rl) (r : Registry (Bucket rl)) (v : IsValid r) (key : Bytes)
      (e : Entry (Bucket rl)) (now : ℤ) where
    spent-Spends :
        (b : Bucket rl) (g : Option Gate) (ds : List ℤ)
        → Spends 1
            (length ds)
            0
            l
            (spent rl l r key e now b g (count_delays (count_request l.stats) ds))
    unfolding count_request write add_int64
    spent-Spends b g ds =
        let (told, same, quiet) = count_delays_adds (count_request l.stats) ds in
        record {
          valid = write-IsValid r key e.id (λ x. record (touch x now) { bucket = b }) v;
          same_door = refl;
          requests = omega (arith, same);
          throttled = told;
          errors = omega (arith, quiet);
        }

    allow_local-Spends :
        (b : Bucket rl × Bool)
        → let x = allow_local rl l r key e now b in Spends 1 (length x.infos) 0 l x.limiter
    allow_local-Spends (b, true) = spent-Spends b l.gate []
    allow_local-Spends (b, false) = spent-Spends b l.gate (Bucket.delay_at rl b now ∷ [])

    allow_shared-Spends :
        (ok : Bool) (d : Decision rl)
        → let x = allow_shared rl l r key e now ok d in Spends 1 (length x.infos) 0 l x.limiter
    allow_shared-Spends true d = spent-Spends d.bucket (some d.gate) []
    allow_shared-Spends false d = spent-Spends d.bucket (some d.gate) (d.delay ∷ [])

    quiet-Spends :
        (b : Bucket rl) (g : Option Gate) (res : Reservation rl)
        → let x = quiet rl l key now r e b g res in Spends 1 (length x.infos) 0 l x.limiter
    quiet-Spends b g res = spent-Spends b g []

    loud-Spends :
        (b : Bucket rl) (g : Option Gate) (res : Reservation rl)
        → let x = loud rl l key now r e b g res in Spends 1 (length x.infos) 0 l x.limiter
    loud-Spends b g res = spent-Spends b g (res.delay ∷ [])

    kept-Spends :
        (b : Bucket rl) (held : Held) (late : Bool)
        → let x = kept rl l key now r e b held late in Spends 1 (length x.infos) 0 l x.limiter
    kept-Spends b held true = spent-Spends b l.gate (held_delay held now ∷ [])
    kept-Spends b held false = spent-Spends b l.gate []

    after_take-Spends :
        (b : Bucket rl) (held : Held) (q : Quota fl.F) (f : Bucket rl → Bucket rl)
        (t : Gate × Taken fl.F)
        → let x = after_take rl l key now r e b held q f t in
          Spends 1 (length x.infos) 0 l x.limiter
    after_take-Spends b held q f t =
        if-both {A = Reserved rl} (λ x. Spends 1 (length x.infos) 0 l x.limiter)
          (t.1.proceed && is_none t.1.error) _ _ (spent-Spends (f b) (some t.0) [])
          (spent-Spends (Bucket.cancel_at rl (f b) held now) (some t.0) (_ ∷ []))

    ask_backend-Spends :
        (a : Around rl) (g : Option Gate) (s : Bool) (b : Bucket rl) (held : Held)
        → let x = ask_backend rl l key now r e a g s b held in
          Spends 1 (length x.infos) 0 l x.limiter
    ask_backend-Spends a (some g) true b held =
        after_take-Spends b held e.bucket.quota a.meanwhile
          (take l.spec g key e.bucket.quota.rate e.bucket.quota.burst a.outside)
    ask_backend-Spends a (some g) false b held = kept-Spends b held _
    ask_backend-Spends a none s b held = kept-Spends b held _

    after_reserve-Spends :
        (a : Around rl) (ok : Bool) (taken : Bucket rl × Held)
        → let x = after_reserve rl l key now r e a ok taken in
          Spends 1 (length x.infos) 0 l x.limiter
    after_reserve-Spends a false taken = spent-Spends taken.0 l.gate []
    after_reserve-Spends a true taken = ask_backend-Spends a l.gate _ taken.0 taken.1

  module _ (l : Limiter rl) (r : Registry (Bucket rl)) (v : IsValid r) (key : Bytes)
      (e : Entry (Bucket rl)) where
    allow_through-Spends :
        (a : Around rl) (g : Option Gate) (s : Bool)
        → let x = allow_through rl l r key e a g s in Spends 1 (length x.infos) 0 l x.limiter
    allow_through-Spends a (some g) true = allow_shared-Spends l r v key e a.now _ _
    allow_through-Spends a (some g) false = allow_local-Spends l r v key e a.now _
    allow_through-Spends a none s = allow_local-Spends l r v key e a.now _

    from_gate-Spends :
        (m : Meets rl) (g : Gate) (w : Way rl)
        → let x = from_gate rl l r key e m g w in Spends 1 (length x.delays) 0 l x.limiter
    from_gate-Spends m g (parks o) = spent-Spends l r v key e m.now _ _ []
    from_gate-Spends m g (polls rs) =
        spent-Spends l r v key e m.now _ _
          (reported_delays (Polling.acquire rl l.spec g key e.bucket rs).0.log)

    acquire_by-Spends :
        (m : Meets rl) (g : Option Gate) (s : Bool)
        → let x = acquire_by rl l r key e m g s in Spends 1 (length x.delays) 0 l x.limiter
    acquire_by-Spends m (some g) true = from_gate-Spends m g m.way
    acquire_by-Spends m (some g) false = spent-Spends l r v key e m.now _ _ _
    acquire_by-Spends m none s = spent-Spends l r v key e m.now _ _ _

  -- What others do while a call reads the saved state keeps the registry well-formed.
  pub record IsTame (o : Owner (bucket_api rl)) : Type 0 where
    pub keeps : (r : Registry (Bucket rl)) → IsValid r → IsValid (o.others r)

  module _ (l : Limiter rl) (v : IsValid l.registry) (key : Bytes) where
    created :
        (o : Owner (bucket_api rl))
        → IsTame o
        → IsValid (get_or_create (bucket_api rl) l.registry key o).0
    created o t = get_or_create-IsValid (bucket_api rl) l.registry key o v (t.keeps l.registry v)

    pub allow-Spends :
        (a : Around rl)
        → IsTame a.owner
        → let x = allow rl l key a in Spends (asked l.shutting_down) (length x.infos) 0 l x.limiter
    unfolding allow
    allow-Spends a t = by_door l.shutting_down
      where
        by_door :
            (b : Bool)
            → let x = allow_if rl l key a b in Spends (asked b) (length x.infos) 0 l x.limiter
        by_door true = idle-Spends l v
        by_door false =
            let (r, e) = get_or_create (bucket_api rl) l.registry key a.owner in
            allow_through-Spends l r (created a.owner t) key e a l.gate _

    pub reserve-Spends :
        (a : Around rl)
        → IsTame a.owner
        → let x = reserve rl l key a in
          Spends (asked l.shutting_down) (length x.infos) 0 l x.limiter
    unfolding reserve
    reserve-Spends a t = by_door l.shutting_down
      where
        by_door :
            (b : Bool)
            → let x = reserve_if rl l key a b in Spends (asked b) (length x.infos) 0 l x.limiter
        by_door true = idle-Spends l v
        by_door false =
            let (r, e) = get_or_create (bucket_api rl) l.registry key a.owner in
            after_reserve-Spends l r (created a.owner t) key e a.now a _ _

    pub acquire-Spends :
        (m : Meets rl)
        → IsTame m.owner
        → let x = acquire rl l key m in Spends 1 (length x.delays) 0 l x.limiter
    unfolding acquire
    acquire-Spends m t =
        let (r, e) = get_or_create (bucket_api rl) l.registry key m.owner in
        acquire_by-Spends l r (created m.owner t) key e m l.gate _

    pub wait-Spends :
        (m : Meets rl)
        → IsTame m.owner
        → let x = Engine.wait rl l key m in
          Spends (asked l.shutting_down) (length x.delays) 0 l x.limiter
    unfolding Engine.wait
    wait-Spends m t = by_door l.shutting_down
      where
        by_door :
            (b : Bool)
            → let x = wait_if rl l key m b in Spends (asked b) (length x.delays) 0 l x.limiter
        by_door true = idle-Spends l v
        by_door false = acquire-Spends m t
