-- ===== src/Gate/Rounds/Polling.antt =====
-- gate/admit.go: the loop of `Acquire` for a backend that cannot park a caller. The rounds are a
-- list, each with what happens outside during it; a list that ends first leaves the caller waiting.
use pace.Prelude.{ℕ, Bool, true, false, Option, none, some, List, [], ◌∷◌, ◌++◌, if◌then◌else◌}
use pace.Prelude.Int.{ℤ, pos, ltb_ℤ}
use pace.Prelude.Bytes.{Bytes}
use pace.Float.{Float64}
use pace.Bucket.{Quota, RateLib, Bucket, reserve_at, cancel_at}
use pace.Shared.{Grant}
use pace.Gate.{
  CtxError, GateError, unsatisfiable, context, wait_error, Spec, Gate, Outside, Taken, take,
  poll_delay, retry_delay,
}

-- What a caller and an observer see of the loop: the throttle report and the sleeps.
pub data Effect (F : Type 0) : Type 0 where
  reported : ℤ → Option F → Effect F
  slept : ℤ → Effect F

module _ {fl : Float64} (rl : RateLib fl) where
  open fl use {F}
  open rl use {Held, held_ok, held_delay}

  -- A sleep ends in nil or with the error of the caller's context.
  pub record Round : Type 0 where
    pub before : Bucket rl → Bucket rl
    pub now : ℤ
    pub first_sleep : Option CtxError
    pub meanwhile : Bucket rl → Bucket rl
    pub outside : Outside F
    pub rand : ℕ → ℕ
    pub retry_sleep : Option CtxError

  pub record Loop : Type 0 where
    pub gate : Gate
    pub bucket : Bucket rl
    pub told : Bool
    pub log : List (Effect F)

  -- `none` is another round.
  abbrev pub End : Type 0
  End = Option (Option GateError)

  abbrev pub report : Loop → ℤ → Option F → Loop
  report l delay tokens =
      if l.told then l else record l { told = true; log = l.log ++ reported delay tokens ∷ [] }

  -- No timer is made for a delay that is not positive; the context is consulted all the same.
  abbrev pub sleep : Loop → ℤ → Loop
  sleep l d = if ltb_ℤ (pos 0) d then record l { log = l.log ++ slept d ∷ [] } else l

  abbrev pub interrupted : Option CtxError → End
  interrupted none = none
  interrupted (some e) = some (some (wait_error (context e)))

  -- The round after a refusal: report, sleep, and again unless the context has ended.
  unfoldable pub retry : Loop → F → Grant F → Round → Loop × End
  unfolding poll_delay retry_delay
  retry l rate grant r =
      let delay = retry_delay fl grant rate in
      let l' = sleep (report l delay grant.remaining) (poll_delay r.rand delay) in
      (l', interrupted r.retry_sleep)

  abbrev pub conclude : Loop → Loop → F → Grant F → Round → Option GateError → Bool → Loop × End
  conclude kept given_back rate grant r (some e) proceed = (given_back, some (some e))
  conclude kept given_back rate grant r none true = (kept, some none)
  conclude kept given_back rate grant r none false = retry given_back rate grant r

  -- The part of a round after the backend's answer.
  unfoldable pub settle : Loop → Held → Quota F → Round → Gate × Taken F → Loop × End
  settle l held q r (g, t) =
      let kept = record l { gate = g; bucket = r.meanwhile l.bucket } in
      let given_back = record kept { bucket = cancel_at rl kept.bucket held r.now } in
      conclude kept given_back q.rate t.grant r t.error t.proceed

  unfoldable pub ask : Spec → Bytes → Loop → Held → Quota F → Round → Loop × End
  ask s key l held q r = settle l held q r (take s l.gate key q.rate q.burst r.outside)

  abbrev pub after_sleep : Loop → Loop × End → Option CtxError → Loop × End
  after_sleep l go_on (some e) = (l, some (some (wait_error (context e))))
  after_sleep l go_on none = go_on

  -- The wait for the shadow's token, if it has none yet.
  unfoldable pub pace_locally : Spec → Bytes → Loop → Held → Quota F → Round → Loop × End
  pace_locally s key l held q r =
      let delay = held_delay held r.now in
      let l' = sleep (report l delay none) delay in
      if ltb_ℤ (pos 0) delay
      then after_sleep (record l' { bucket = cancel_at rl (r.meanwhile l.bucket) held r.now })
          (ask s key l' held q r) r.first_sleep
      else ask s key l held q r

  unfoldable pub round : Spec → Bytes → Loop → Round → Loop × End
  round s key l r =
      let b = r.before l.bucket in
      let (b', held) = reserve_at rl b r.now in
      let l' = record l { bucket = b' } in
      if held_ok held
      then pace_locally s key l' held b.quota r
      else (l', some (some (wait_error unsatisfiable)))

  abbrev pub continue : (Loop → Loop × End) → Loop × End → Loop × End
  continue rest (l, some e) = (l, some e)
  continue rest (l, none) = rest l

  unfoldable pub acquire_loop : Spec → Bytes → List Round → Loop → Loop × End
  acquire_loop s key [] l = (l, none)
  acquire_loop s key (r ∷ rs) l = continue (acquire_loop s key rs) (round s key l r)

  unfoldable pub acquire : Spec → Gate → Bytes → Bucket rl → List Round → Loop × End
  unfolding acquire_loop
  acquire s g key b rs =
      acquire_loop s key rs (record { gate = g; bucket = b; told = false; log = [] })
