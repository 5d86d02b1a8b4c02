-- ===== src/Limiter/Isolation.antt =====
-- What the calls of limiter/ratelimit.go and limiter/reserve.go change in the registry: one entry.
pub mod Keys
use pace.Prelude.{
  ℕ, ◌<◌, ◌≡◌, ◌≢◌, refl, sym, ap, ◌∙◌, subst, Bool, true, false, ◌&&◌, not, Option, none, some,
  List, [], ◌∷◌, arith, length, if◌then◌else◌, if-both,
}
use pace.Prelude.Int.{ℤ}
use pace.Prelude.Bytes.{Bytes, bytes_eq, bytes_eq_iff}
use pace.Float.{Float64}
use pace.Bucket
use pace.Bucket.{RateLib, Bucket, Quota}
use pace.Bucket.Api.{bucket_api}
use pace.Gate.{Gate, Taken, take}
use pace.Gate.Rounds.{Decision, is_none}
use pace.Registry.{Registry, Entry, touch}
use pace.Limiter.Admission.{
  Limiter, Around, Answer, write, spent, allow_local, allow_shared, allow_through,
}
use pace.Limiter.Reserve.{
  Reservation, Reserved, quiet, loud, kept, after_take, ask_backend, after_reserve,
}
use pace.Limiter.Acquire.{Way, parks, polls, Meets, Acquired, from_gate, acquire_by}

module _ {fl : Float64} (rl : RateLib fl) where
  open rl use {Held}

  -- The registry has a new bucket in the entry of the key, touched at `now`, and is else as it was.
  abbrev pub Writes :
      Registry (Bucket rl) → Bytes → Entry (Bucket rl) → ℤ → Registry (Bucket rl) → Type 0
  Writes r key e now q =
      (b : Bucket rl) × (q ≡ write rl r key e.id (λ x. record (touch x now) { bucket = b }))

  module _ (l : Limiter rl) (r : Registry (Bucket rl)) (key : Bytes) (e : Entry (Bucket rl))
      (now : ℤ) where
    allow_local-Writes :
        (x : Bucket rl × Bool)
        → Writes r key e now (allow_local rl l r key e now x).limiter.registry
    allow_local-Writes (b, true) = (b, refl)
    allow_local-Writes (b, false) = (b, refl)

    allow_shared-Writes :
        (ok : Bool) (d : Decision rl)
        → Writes r key e now (allow_shared rl l r key e now ok d).limiter.registry
    allow_shared-Writes true d = (d.bucket, refl)
    allow_shared-Writes false d = (d.bucket, refl)

    kept-Writes :
        (b : Bucket rl) (held : Held) (late : Bool)
        → Writes r key e now (kept rl l key now r e b held late).limiter.registry
    kept-Writes b held true = (b, refl)
    kept-Writes b held false = (b, refl)

    after_take-Writes :
        (b : Bucket rl) (held : Held) (q : Quota fl.F) (f : Bucket rl → Bucket rl)
        (t : Gate × Taken fl.F)
        → Writes r key e now (after_take rl l key now r e b held q f t).limiter.registry
    after_take-Writes b held q f t =
        if-both {A = Reserved rl} (λ x. Writes r key e now x.limiter.registry)
          (t.1.proceed && is_none t.1.error) _ _ (f b, refl)
          (Bucket.cancel_at rl (f b) held now, refl)

    ask_backend-Writes :
        (a : Around rl) (g : Option Gate) (s : Bool) (b : Bucket rl) (held : Held)
        → Writes r key e now (ask_backend rl l key now r e a g s b held).limiter.registry
    ask_backend-Writes a (some g) true b held =
        after_take-Writes b held e.bucket.quota a.meanwhile
          (take l.spec g key e.bucket.quota.rate e.bucket.quota.burst a.outside)
    ask_backend-Writes a (some g) false b held = kept-Writes b held _
    ask_backend-Writes a none s b held = kept-Writes b held _

    pub after_reserve-Writes :
        (a : Around rl) (ok : Bool) (taken : Bucket rl × Held)
        → Writes r key e now (after_reserve rl l key now r e a ok taken).limiter.registry
    after_reserve-Writes a false taken = (taken.0, refl)
    after_reserve-Writes a true taken = ask_backend-Writes a l.gate _ taken.0 taken.1

  module _ (l : Limiter rl) (r : Registry (Bucket rl)) (key : Bytes) (e : Entry (Bucket rl)) where
    pub allow_through-Writes :
        (a : Around rl) (g : Option Gate) (s : Bool)
        → Writes r key e a.now (allow_through rl l r key e a g s).limiter.registry
    allow_through-Writes a (some g) true = allow_shared-Writes l r key e a.now _ _
    allow_through-Writes a (some g) false = allow_local-Writes l r key e a.now _
    allow_through-Writes a none s = allow_local-Writes l r key e a.now _

    from_gate-Writes :
        (m : Meets rl) (g : Gate) (w : Way rl)
        → Writes r key e m.now (from_gate rl l r key e m g w).limiter.registry
    from_gate-Writes m g (parks o) = (_, refl)
    from_gate-Writes m g (polls rs) = (_, refl)

    pub acquire_by-Writes :
        (m : Meets rl) (g : Option Gate) (s : Bool)
        → Writes r key e m.now (acquire_by rl l r key e m g s).limiter.registry
    acquire_by-Writes m (some g) true = from_gate-Writes m g m.way
    acquire_by-Writes m (some g) false = (_, refl)
    acquire_by-Writes m none s = (_, refl)
