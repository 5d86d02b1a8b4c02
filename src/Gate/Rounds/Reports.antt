-- ===== src/Gate/Rounds/Reports.antt =====
-- The throttle reports of the polling loop in gate/admit.go.
use pace.Prelude.{
  Bool, true, false, Option, none, some, List, [], ◌∷◌, ◌++◌, Bool-cases, inl, inr, if-both,
}
use pace.Prelude.Int.{ℤ, pos, ltb_ℤ}
use pace.Prelude.Bytes.{Bytes}
use pace.Float.{Float64}
use pace.Bucket.{RateLib, Bucket, Quota, reserve_at}
use pace.Gate.{Gate, Spec, GateError, CtxError, take}
use pace.Shared.{Grant}
use pace.Gate.Rounds.Polling.{
  Effect, reported, slept, Round, Loop, End, report, sleep, retry, conclude, settle, ask,
  after_sleep, pace_locally, round, continue, acquire_loop, acquire,
}

-- Only sleeps.
abbrev pub AreSleeps : {F : Type 0} → List (Effect F) → Type 0
AreSleeps [] = Unit
AreSleeps (slept d ∷ es) = AreSleeps es
AreSleeps (reported d t ∷ es) = ⊥

-- Nothing yet, or one report and then only sleeps.
abbrev pub IsReported : {F : Type 0} → Bool → List (Effect F) → Type 0
IsReported false [] = Unit
IsReported true (reported d t ∷ es) = AreSleeps es
IsReported _ _ = ⊥

AreSleeps-append :
    {F : Type 0} (es : List (Effect F)) (d : ℤ) → AreSleeps es → AreSleeps (es ++ slept d ∷ [])
AreSleeps-append [] d h = tt
AreSleeps-append (slept e ∷ es) d h = AreSleeps-append es d h
AreSleeps-append (reported e t ∷ es) d h = h

IsReported-append :
    {F : Type 0} (es : List (Effect F)) (d : ℤ)
    → IsReported true es
    → IsReported true (es ++ slept d ∷ [])
IsReported-append [] d h = h
IsReported-append (slept e ∷ es) d h = h
IsReported-append (reported e t ∷ es) d h = AreSleeps-append es d h

module _ {fl : Float64} (rl : RateLib fl) where
  abbrev IsTold : Loop rl → Type 0
  IsTold l = IsReported l.told l.log

  -- A report, if none was sent before, and a sleep.
  IsTold-slept :
      (g : Gate) (b : Bucket rl) (told : Bool) (es : List (Effect fl.F)) (d e : ℤ) (t : Option fl.F)
      → IsReported told es
      → let l : Loop rl = record { gate = g; bucket = b; told = told; log = es } in
        let m = report rl l d t in IsTold (record m { log = m.log ++ slept e ∷ [] })
  IsTold-slept g b true es d e t h = IsReported-append es e h
  IsTold-slept g b false [] d e t h = tt
  IsTold-slept g b false (x ∷ es) d e t h = absurd h

  IsTold-report :
      (g : Gate) (b : Bucket rl) (told : Bool) (es : List (Effect fl.F)) (d : ℤ) (t : Option fl.F)
      → IsReported told es
      → let l : Loop rl = record { gate = g; bucket = b; told = told; log = es } in
        IsTold (report rl l d t)
  IsTold-report g b true es d t h = h
  IsTold-report g b false [] d t h = tt
  IsTold-report g b false (x ∷ es) d t h = absurd h

  IsTold-sleep :
      (g : Gate) (b : Bucket rl) (told : Bool) (es : List (Effect fl.F)) (d e : ℤ) (t : Option fl.F)
      → IsReported told es
      → let l : Loop rl = record { gate = g; bucket = b; told = told; log = es } in
        IsTold (sleep rl (report rl l d t) e)
  IsTold-sleep g b told es d e t h =
      if-both {A = Loop rl} IsTold (ltb_ℤ (pos 0) e) _ _ (IsTold-slept g b told es d e t h)
        (IsTold-report g b told es d t h)

  retry-IsTold :
      (l : Loop rl) (rate : fl.F) (g : Grant fl.F) (r : Round rl)
      → IsTold l
      → IsTold (retry rl l rate g r).0
  unfolding retry
  retry-IsTold l rate g r h = IsTold-sleep l.gate l.bucket l.told l.log _ _ _ h

  conclude-IsTold :
      (kept back : Loop rl) (rate : fl.F) (g : Grant fl.F) (r : Round rl) (e : Option GateError)
      (p : Bool)
      → IsTold kept
      → IsTold back
      → IsTold (conclude rl kept back rate g r e p).0
  conclude-IsTold kept back rate g r (some e) p h k = k
  conclude-IsTold kept back rate g r none true h k = h
  conclude-IsTold kept back rate g r none false h k = retry-IsTold back rate g r k

  ask-IsTold :
      (s : Spec) (key : Bytes) (l : Loop rl) (held : rl.Held) (q : Quota fl.F) (r : Round rl)
      → IsTold l
      → IsTold (ask rl s key l held q r).0
  unfolding ask settle
  ask-IsTold s key l held q r h =
      let (g, t) = take s l.gate key q.rate q.burst r.outside in
      conclude-IsTold _ _ q.rate t.grant r t.error t.proceed h h

  after_sleep-IsTold :
      (l : Loop rl) (m : Loop rl × End rl) (e : Option CtxError)
      → IsTold l
      → IsTold m.0
      → IsTold (after_sleep rl l m e).0
  after_sleep-IsTold l m (some e) h k = h
  after_sleep-IsTold l m none h k = k

  pace_locally-IsTold :
      (s : Spec) (key : Bytes) (l : Loop rl) (held : rl.Held) (q : Quota fl.F) (r : Round rl)
      → IsTold l
      → IsTold (pace_locally rl s key l held q r).0
  unfolding pace_locally
  pace_locally-IsTold s key l held q r h =
      let k =
        IsTold-slept l.gate l.bucket l.told l.log (rl.held_delay held r.now)
          (rl.held_delay held r.now) none h in
      elim (Bool-cases (ltb_ℤ (pos 0) (rl.held_delay held r.now))) [
        | inl e ↦ rw e (after_sleep-IsTold _ _ r.first_sleep k (ask-IsTold s key _ held q r k))
        | inr e ↦ rw e (ask-IsTold s key l held q r h)
      ]

  round-IsTold :
      (s : Spec) (key : Bytes) (l : Loop rl) (r : Round rl)
      → IsTold l
      → IsTold (round rl s key l r).0
  unfolding round
  round-IsTold s key l r h =
      let (b, held) = reserve_at rl (r.before l.bucket) r.now in
      elim (Bool-cases (rl.held_ok held)) [
        | inl e ↦ rw e (pace_locally-IsTold s key _ held _ r h)
        | inr e ↦ rw e h
      ]

  continue-IsTold :
      (rest : Loop rl → Loop rl × End rl) (m : Loop rl × End rl)
      → ((l : Loop rl) → IsTold l → IsTold (rest l).0)
      → IsTold m.0
      → IsTold (continue rl rest m).0
  continue-IsTold rest (l, some e) keep h = h
  continue-IsTold rest (l, none) keep h = keep l h

  loop-IsTold :
      (s : Spec) (key : Bytes) (rs : List (Round rl)) (l : Loop rl)
      → IsTold l
      → IsTold (acquire_loop rl s key rs l).0
  unfolding acquire_loop
  loop-IsTold s key [] l h = h
  loop-IsTold s key (r ∷ rs) l h =
      continue-IsTold (acquire_loop rl s key rs) (round rl s key l r) (loop-IsTold s key rs)
        (round-IsTold s key l r h)

  -- However many rounds a caller polls, what it sends is nothing at all, or one throttle report
  -- before its first sleep and no other.
  pub acquire-IsReported :
      (s : Spec) (g : Gate) (key : Bytes) (b : Bucket rl) (rs : List (Round rl))
      → IsReported (acquire rl s g key b rs).0.told (acquire rl s g key b rs).0.log
  unfolding acquire
  acquire-IsReported s g key b rs = loop-IsTold s key rs _ tt
