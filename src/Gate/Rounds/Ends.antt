-- ===== src/Gate/Rounds/Ends.antt =====
-- How the polling loop of gate/admit.go ends.
use pace.Prelude.{
  ◌≡◌, refl, Bool, true, false, ◌⊎◌, inl, inr, Option, none, some, List, [], ◌∷◌, Bool-cases, All,
}
use pace.Prelude.Int.{ℤ, pos, ltb_ℤ}
use pace.Prelude.Bytes.{Bytes}
use pace.Float.{Float64}
use pace.Bucket.{RateLib, Bucket, Quota, reserve_at}
use pace.Shared.{Grant, answered, deny}
use pace.Gate.{Gate, Spec, GateError, CtxError, take, request}
use pace.Gate.Accounting.{take-deny}
use pace.Gate.Rounds.Polling.{
  Round, Loop, End, interrupted, retry, conclude, settle, ask, after_sleep, pace_locally, round,
  continue, acquire_loop, acquire,
}

module _ {fl : Float64} (rl : RateLib fl) where
  -- In this round the backend granted the one token of the namespace's key that it was asked for, at
  -- some rate and burst.
  abbrev pub Grants : Bytes → Bytes → Round rl → Type 0
  Grants space key r =
      (rate : fl.F) × (burst : ℤ) × (g : Grant fl.F) × (r.outside.answer
          (record { key = key; namespace = space; tokens = pos 1; rate = rate; burst = burst })
        ≡ answered g)
      × (g.granted ≡ true)

  abbrev pub Any : (Round rl → Type 0) → List (Round rl) → Type 0
  Any P [] = ⊥
  Any P (r ∷ rs) = P r ⊎ Any P rs

  interrupted_fails : (e : Option CtxError) → interrupted rl e ≡ some none → ⊥
  interrupted_fails none h = cc
  interrupted_fails (some e) h = cc

  conclude_end :
      (kept back : Loop rl) (rate : fl.F) (g : Grant fl.F) (r : Round rl) (e : Option GateError)
      (p : Bool) (G : Type 0)
      → ((p ≡ true → G) → (conclude rl kept back rate g r e p).1 ≡ some none → G)
        × ((conclude rl kept back rate g r e p).1 ≡ none → r.retry_sleep ≡ none)
  unfolding retry
  conclude_end kept back rate g r (some e) p G = (λ grants h. cc, λ h. cc)
  conclude_end kept back rate g r none true G = (λ grants h. grants refl, λ h. cc)
  conclude_end kept back rate g r none false G =
      (λ grants h. absurd (interrupted_fails r.retry_sleep h), λ h. uninterrupted r.retry_sleep h)
    where
      uninterrupted : (e : Option CtxError) → interrupted rl e ≡ none → e ≡ none
      uninterrupted none h = refl
      uninterrupted (some e) h = cc

  module _ (s : Spec) (key : Bytes) where
    abbrev Ended : Round rl → Loop rl × End rl → Type 0
    Ended r m =
        (s.on_error ≡ deny → m.1 ≡ some none → Grants s.namespace key r)
        × (m.1 ≡ none → r.retry_sleep ≡ none)

    ask-Ended :
        (l : Loop rl) (held : rl.Held) (q : Quota fl.F) (r : Round rl)
        → Ended r (ask rl s key l held q r)
    unfolding ask settle request
    ask-Ended l held q r =
        let (g, t) = take s l.gate key q.rate q.burst r.outside in
        let e =
          conclude_end (record l { gate = g; bucket = r.meanwhile l.bucket }) _ q.rate t.grant r
            t.error t.proceed (Grants s.namespace key r) in
        (
          λ d h.
              e.0
                (λ p.
                  let w = take-deny s l.gate key q.rate q.burst r.outside d p in
                  (q.rate, q.burst, t.grant, w.0, w.1))
                h,
          e.1,
        )

    after_sleep-Ended :
        (r : Round rl) (l : Loop rl) (m : Loop rl × End rl) (e : Option CtxError)
        → Ended r m
        → Ended r (after_sleep rl l m e)
    after_sleep-Ended r l m (some e) h = (λ d k. cc, λ k. cc)
    after_sleep-Ended r l m none h = h

    pace_locally-Ended :
        (l : Loop rl) (held : rl.Held) (q : Quota fl.F) (r : Round rl)
        → Ended r (pace_locally rl s key l held q r)
    unfolding pace_locally
    pace_locally-Ended l held q r = elim (Bool-cases (ltb_ℤ (pos 0) (rl.held_delay held r.now))) [
      | inl e ↦ rw e (after_sleep-Ended r _ _ r.first_sleep (ask-Ended _ held q r))
      | inr e ↦ rw e (ask-Ended l held q r)
    ]

    round-Ended : (l : Loop rl) (r : Round rl) → Ended r (round rl s key l r)
    unfolding round
    round-Ended l r =
        let (b, held) = reserve_at rl (r.before l.bucket) r.now in
        elim (Bool-cases (rl.held_ok held)) [
          | inl e ↦ rw e (pace_locally-Ended _ held _ r)
          | inr e ↦ rw e (λ d h. cc, λ h. cc)
        ]

    abbrev LoopEnded : List (Round rl) → Loop rl × End rl → Type 0
    LoopEnded rs m =
        (s.on_error ≡ deny → m.1 ≡ some none → Any (Grants s.namespace key) rs)
        × (m.1 ≡ none → All (λ r. r.retry_sleep ≡ none) rs)

    continue-LoopEnded :
        (r : Round rl) (rs : List (Round rl)) (rest : Loop rl → Loop rl × End rl)
        (m : Loop rl × End rl)
        → Ended r m
        → ((l : Loop rl) → LoopEnded rs (rest l))
        → LoopEnded (r ∷ rs) (continue rl rest m)
    continue-LoopEnded r rs rest (l, some e) h k = (λ d n. inl (h.0 d n), λ n. cc)
    continue-LoopEnded r rs rest (l, none) h k =
        (λ d n. inr ((k l).0 d n), λ n. (h.1 refl, (k l).1 n))

    loop-LoopEnded :
        (rs : List (Round rl)) (l : Loop rl) → LoopEnded rs (acquire_loop rl s key rs l)
    unfolding acquire_loop
    loop-LoopEnded [] l = (λ d h. cc, λ h. tt)
    loop-LoopEnded (r ∷ rs) l =
        continue-LoopEnded r rs (acquire_loop rl s key rs) (round rl s key l r) (round-Ended l r)
          (loop-LoopEnded rs)

    -- Under Deny the loop lets a caller through only if in one of its rounds the backend granted the
    -- one token of the namespace's key that it was asked for.
    pub acquire_ends :
        (g : Gate) (b : Bucket rl) (rs : List (Round rl))
        → s.on_error ≡ deny
        → (acquire rl s g key b rs).1 ≡ some none
        → Any (Grants s.namespace key) rs
    unfolding acquire
    acquire_ends g b rs d h = (loop-LoopEnded rs _).0 d h

    -- A caller is still in the loop only after rounds that all ended in a whole sleep.
    pub acquire_waits :
        (g : Gate) (b : Bucket rl) (rs : List (Round rl))
        → (acquire rl s g key b rs).1 ≡ none
        → All (λ r. r.retry_sleep ≡ none) rs
    unfolding acquire
    acquire_waits g b rs h = (loop-LoopEnded rs _).1 h
