-- ===== src/Limiter/Reserve/Outcomes.antt =====
-- What `Reserve` of limiter/reserve.go counts and reports, and that a token goes back once.
use pace.Prelude.{
  ◌≡◌, refl, ap, ◌∙◌, Bool, true, false, not, ◌&&◌, Option, none, some, [], arith, length,
  if◌then◌else◌,
}
use pace.Prelude.Int.{ℤ, pos, ltb_ℤ, eq_ℤ}
use pace.Prelude.Bytes.{Bytes}
use pace.Prelude.Word.{add_int64, wrap64}
use pace.Float.{Float64}
use pace.Bucket
use pace.Bucket.{RateLib, Bucket, Quota}
use pace.Bucket.Api.{bucket_api}
use pace.Gate.{Gate, Taken, take, retry_delay}
use pace.Gate.Rounds.{is_none}
use pace.Gate.Delays.{retry_delay_bounds}
use pace.Registry.{Registry, Entry, lookup, touch, get_or_create}
use pace.Registry.Create.{lookup-get_or_create}
use pace.Registry.Population.{IsValid}
use pace.Limiter.Admission.{Limiter, Around, count_request, count_throttled, shared_enabled}
use pace.Limiter.Admission.Outcomes.{lookup-write, get_or_create-IsValid}
use pace.Limiter.Reserve.{
  Reservation, Reserved, quiet, loud, held_by, kept, after_take, ask_backend, after_reserve,
  reserve_if, reserve, give_back, cancel,
}

module _ {fl : Float64} (rl : RateLib fl) where
  open rl use {Held, held_ok, held_delay}

  -- One request; a throttle is counted and reported once if there is a wait to report, else not.
  abbrev pub Counted : Limiter rl → Reserved rl → Type 0
  Counted l out =
      (out.limiter.stats.requests ≡ add_int64 l.stats.requests 1)
      × (out.limiter.stats.throttled ≡ (
          if ltb_ℤ (pos 0) out.reservation.delay
          then add_int64 l.stats.throttled 1
          else l.stats.throttled))
      × (length out.infos ≡ (if ltb_ℤ (pos 0) out.reservation.delay then 1 else 0))

  abbrev pub Touched : Bytes → ℤ → Reserved rl → Type 0
  Touched key now out =
      (e : Entry (Bucket rl)) × (lookup out.limiter.registry key ≡ some e)
      × (e.last_used ≡ wrap64 now)

  abbrev Good : Limiter rl → Bytes → ℤ → Reserved rl → Type 0
  Good l key now out = Counted l out × Touched key now out

  module _ (l : Limiter rl) (key : Bytes) (now : ℤ) (r : Registry (Bucket rl))
      (e : Entry (Bucket rl)) (v : IsValid r) (h : lookup r key ≡ some e) where
    quiet-Good :
        (b : Bucket rl) (g : Option Gate) (res : Reservation rl)
        → ltb_ℤ (pos 0) res.delay ≡ false
        → Good l key now (quiet rl l key now r e b g res)
    unfolding count_request touch
    quiet-Good b g res p = ((refl, rw p, rw p), (_, lookup-write rl r key e _ v h, refl))

    loud-Good :
        (b : Bucket rl) (g : Option Gate) (res : Reservation rl)
        → ltb_ℤ (pos 0) res.delay ≡ true
        → Good l key now (loud rl l key now r e b g res)
    unfolding count_request count_throttled touch
    loud-Good b g res p = ((refl, rw p, rw p), (_, lookup-write rl r key e _ v h, refl))

    kept-Good :
        (b : Bucket rl) (held : Held) (late : Bool)
        → ltb_ℤ (pos 0) (held_delay held now) ≡ late
        → Good l key now (kept rl l key now r e b held late)
    kept-Good b held true p =
        loud-Good b l.gate (held_by rl l key now r e held (held_delay held now) true) p
    kept-Good b held false p =
        quiet-Good b l.gate (held_by rl l key now r e held (held_delay held now) true) p

    after_take-Good :
        (b : Bucket rl) (held : Held) (q : Quota fl.F) (m : Bucket rl → Bucket rl)
        (t : Gate × Taken fl.F)
        → Good l key now (after_take rl l key now r e b held q m t)
    after_take-Good b held q m t = by_word (t.1.proceed && is_none t.1.error)
      where
        by_word :
            (ok : Bool)
            → Good l key now (
                if ok
                then quiet rl l key now r e
                    (m b)
                    (some t.0)
                    (held_by rl l key now r e held (pos 0) true)
                else loud rl l key now r e
                    (Bucket.cancel_at rl (m b) held now)
                    (some t.0)
                    (held_by rl l key now r e held (retry_delay fl t.1.grant q.rate) false))
        by_word true = quiet-Good (m b) (some t.0) (held_by rl l key now r e held (pos 0) true) refl
        by_word false =
            loud-Good (Bucket.cancel_at rl (m b) held now) (some t.0)
              (held_by rl l key now r e held (retry_delay fl t.1.grant q.rate) false)
              (ground (arith, (retry_delay_bounds fl t.1.grant q.rate).0))

    ask_backend-Good :
        (a : Around rl) (g : Option Gate) (s : Bool) (b : Bucket rl) (held : Held)
        → Good l key now (ask_backend rl l key now r e a g s b held)
    ask_backend-Good a (some g) true b held =
        after_take-Good b held e.bucket.quota a.meanwhile
          (take l.spec g key e.bucket.quota.rate e.bucket.quota.burst a.outside)
    ask_backend-Good a (some g) false b held =
        kept-Good b held (ltb_ℤ (pos 0) (held_delay held now)) refl
    ask_backend-Good a none s b held = kept-Good b held (ltb_ℤ (pos 0) (held_delay held now)) refl

    after_reserve-Good :
        (a : Around rl) (ok : Bool) (taken : Bucket rl × Held)
        → Good l key now (after_reserve rl l key now r e a ok taken)
    after_reserve-Good a false taken =
        quiet-Good taken.0 l.gate (held_by rl l key now r e taken.1 (pos 0) false) refl
    after_reserve-Good a true taken =
        ask_backend-Good a l.gate
          (shared_enabled rl l.gate e.bucket.quota && eq_ℤ (held_delay taken.1 now) (pos 0)) taken.0
          taken.1

  -- What a call is to do, by whether the limiter shuts down.
  abbrev pub Does : Limiter rl → Bytes → ℤ → Bool → Reserved rl → Type 0
  Does l key now true out = (out.limiter ≡ l) × (out.reservation.ok ≡ false) × (out.infos ≡ [])
  Does l key now false out = Counted l out × Touched key now out

  -- While the limiter is open, every Reserve is counted as one request, and it is counted as
  -- throttled and reported, once, exactly when the reservation it returns has a delay above zero;
  -- the key is in memory afterwards, last used at the time of the call. A limiter that shuts down
  -- gives a reservation that is not OK, and changes nothing. The registry is well-formed, as others
  -- leave it too.
  pub reserve_outcome :
      (l : Limiter rl) (key : Bytes) (a : Around rl)
      → IsValid l.registry
      → IsValid (a.owner.others l.registry)
      → Does l key a.now l.shutting_down (reserve rl l key a)
  unfolding reserve
  reserve_outcome l key a v w = by_door l.shutting_down
    where
      found : Registry (Bucket rl) × Entry (Bucket rl)
      found = get_or_create (bucket_api rl) l.registry key a.owner

      taken : Bucket rl × Held
      taken = Bucket.reserve_at rl found.1.bucket a.now

      by_door : (shutting : Bool) → Does l key a.now shutting (reserve_if rl l key a shutting)
      by_door true = (refl, refl, refl)
      by_door false =
          after_reserve-Good l key a.now found.0 found.1
            (get_or_create-IsValid (bucket_api rl) l.registry key a.owner v w)
            (lookup-get_or_create (bucket_api rl) l.registry key a.owner w.sharded).0 a
            (held_ok taken.1) taken

  module _ (l : Limiter rl) (res : Reservation rl) (now : ℤ) where
    give_back-false : (h : Option Held) → give_back rl l res now h false ≡ (l, res)
    give_back-false none = refl
    give_back-false (some held) = refl

    not_held : (b : Bool) → b ≡ false → give_back rl l res now res.held b ≡ (l, res)
    not_held b p = ap (give_back rl l res now res.held) p ∙ give_back-false res.held

    nothing : (b : Bool) → res.held ≡ none → give_back rl l res now res.held b ≡ (l, res)
    nothing b p = ap (λ h. give_back rl l res now h b) p

  unusable : (b : Bool) → (b && false) ≡ false
  unusable true = refl
  unusable false = refl

  -- Cancelling a reservation again, at any later time, changes nothing more: a token is handed back
  -- at most once.
  pub cancel_once :
      (l : Limiter rl) (res : Reservation rl) (now later : ℤ)
      → cancel rl (cancel rl l res now).0 (cancel rl l res now).1 later ≡ cancel rl l res now
  unfolding cancel
  cancel_once l res now later = again res.held (res.ok && not res.done) refl refl
    where
      again :
          (h : Option Held) (b : Bool)
          → res.held ≡ h
          → (res.ok && not res.done) ≡ b
          → cancel rl (give_back rl l res now h b).0 (give_back rl l res now h b).1 later
            ≡ give_back rl l res now h b
      again none b p q = nothing l res later (res.ok && not res.done) p
      again (some held) false p q = not_held l res later (res.ok && not res.done) q
      again (some held) true p q =
          not_held (give_back rl l res now (some held) true).0 (record res { done = true }) later
            (res.ok && false) (unusable res.ok)
