-- ===== src/Gate.antt =====
-- gate/gate.go: one call of the shared backend behind the breaker and the failure policy.
pub mod Rounds
pub mod Fleet
pub mod Accounting
pub mod Delays
pub mod Shadow
mod Tests
use pace.Prelude.{ℕ, ◌+◌, ◌*◌, ◌/◌, ◌^◌, Bool, true, false, not, Option, none, some, if◌then◌else◌}
use pace.Prelude.Int.{ℤ, pos, negsuc, ◌+ℤ◌, leb_ℤ, ltb_ℤ, min_ℤ, max_ℤ}
use pace.Prelude.Bytes.{Bytes}
use pace.Prelude.Word.{add_int64, wrap64}
use pace.Breaker
use pace.Breaker.{Breaker}
use pace.Float.{Float64, zero_f, second_f}
use pace.Shared.{
  ErrorPolicy, fallback_local, deny, allow_all, other, TakeRequest, Grant, Answer, answered, broke,
}

pub data CtxError : Type 0 where
  canceled deadline_exceeded : CtxError

-- The errors that leave the gate; `backend` and `limiter` carry one that it did not make.
pub data GateError : Type 0 where
  closed unsatisfiable breaker_open : GateError
  context : CtxError → GateError
  backend limiter : ℤ → GateError
  unavailable wait_error : GateError → GateError

-- The values of a Spec; its functions and contexts are arguments of the calls.
pub record Spec : Type 0 where
  pub namespace : Bytes
  pub timeout : ℤ
  pub on_error : ErrorPolicy

-- Which of the required fields of a Spec are set.
pub record Wired : Type 0 where
  pub has_backend : Bool
  pub has_logger : Bool
  pub has_now : Bool
  pub has_closed : Bool
  pub has_throttled : Bool
  pub has_before_wait : Bool
  pub has_before_take : Bool

pub record Gate : Type 0 where
  pub breaker : Breaker
  pub takes : ℕ
  pub refused : ℕ
  pub failures : ℕ

abbrev any_unset : Bool → Bool → Bool → Bool
any_unset true true true = false
any_unset _ _ _ = true

-- `none` is a panic.
unfoldable pub new_gate : Wired → Spec → Option Gate
new_gate w s =
    if not w.has_backend
    then none
    else if any_unset w.has_logger w.has_now w.has_closed
    then none
    else if any_unset w.has_throttled w.has_before_wait w.has_before_take
    then none
    else if leb_ℤ s.timeout (pos 0)
    then none
    else some (record { breaker = Breaker.fresh; takes = 0; refused = 0; failures = 0 })

-- What happens outside the gate during one call of Take: the clock when it begins and when a
-- failure is recorded, the backend's answer, and whether the owner's context and the caller's have
-- ended by then.
pub record Outside (F : Type 0) : Type 0 where
  pub now : ℤ
  pub answer : TakeRequest F → Answer F
  pub owner_done : Bool
  pub caller_error : Option CtxError
  pub failed_at : ℤ

pub record Taken (F : Type 0) : Type 0 where
  pub grant : Grant F
  pub proceed : Bool
  pub error : Option GateError

unfoldable pub on_unavailable : ErrorPolicy → GateError → Bool × Option GateError
on_unavailable fallback_local cause = (true, none)
on_unavailable deny cause = (false, some (unavailable cause))
on_unavailable allow_all cause = (true, none)
on_unavailable (other n) cause = (true, none)

-- shared.Grant{}
abbrev pub no_grant : {F : Type 0} → Grant F
no_grant = record { granted = false; retry_after = pos 0; remaining = none }

module _ {F : Type 0} where
  unfoldable pub request : Spec → Bytes → F → ℤ → TakeRequest F
  request s key rate burst = record {
    key = key;
    namespace = s.namespace;
    tokens = pos 1;
    rate = rate;
    burst = burst;
  }

  -- A call that produced no answer, under the failure policy.
  abbrev pub no_answer : ErrorPolicy → GateError → Taken F
  no_answer policy cause =
      let (proceed, error) = on_unavailable policy cause in
      record { grant = no_grant; proceed = proceed; error = error }

  abbrev pub refuse : GateError → Taken F
  refuse e = record { grant = no_grant; proceed = false; error = some e }

  abbrev after_error : Spec → Gate → Outside F → GateError → Gate × Taken F
  after_error s g o cause =
      if o.owner_done
      then (record g { breaker = Breaker.abandoned g.breaker }, refuse closed)
      else elim o.caller_error [
        | some e ↦ (record g { breaker = Breaker.abandoned g.breaker }, refuse (context e))
        | none ↦ (
          record g {
            failures = add_int64 g.failures 1;
            breaker = Breaker.failed g.breaker o.failed_at;
          },
          no_answer s.on_error cause,
        )
      ]

  abbrev after_answer : Gate → Grant F → Gate × Taken F
  after_answer g grant = (
    record g {
      breaker = Breaker.succeeded g.breaker;
      refused = if grant.granted then g.refused else add_int64 g.refused 1;
    },
    record { grant = grant; proceed = grant.granted; error = none },
  )

  abbrev after_call : Spec → Gate → Outside F → Answer F → Gate × Taken F
  after_call s g o (answered grant) = after_answer g grant
  after_call s g o (broke e) = after_error s g o (backend e)

  unfoldable pub take : Spec → Gate → Bytes → F → ℤ → Outside F → Gate × Taken F
  unfolding request on_unavailable
  take s g key rate burst o =
      let (b, allowed) = Breaker.allow g.breaker o.now in
      if allowed
      then after_call s (record g { breaker = b; takes = add_int64 g.takes 1 }) o
          (o.answer (request s key rate burst))
      else (
        record g { breaker = b; failures = add_int64 g.failures 1 },
        no_answer s.on_error breaker_open,
      )

abbrev pub min_poll_delay : ℤ
min_poll_delay = pos (10 * 10 ^ 6)

abbrev pub max_poll_delay : ℤ
max_poll_delay = pos (30 * 10 ^ 9)

-- `rand n` is rand.Int64N(n).
unfoldable pub poll_delay : (ℕ → ℕ) → ℤ → ℤ
unfolding ◌+ℤ◌ wrap64
poll_delay rand (pos d) =
    if leb_ℤ (pos d) (pos 0) then pos 0 else wrap64 (pos d +ℤ pos (rand (d / 2 + 1)))
poll_delay rand (negsuc d) = pos 0

module _ (fl : Float64) where
  open fl use {F, le, div, to_int64}

  unfoldable pub fallback_delay : F → ℤ
  fallback_delay rate =
      if le rate (zero_f fl)
      then min_poll_delay
      else min_ℤ (max_ℤ (to_int64 (div (second_f fl) rate)) min_poll_delay) max_poll_delay

  unfoldable pub retry_delay : Grant F → F → ℤ
  unfolding fallback_delay
  retry_delay g rate = if ltb_ℤ (pos 0) g.retry_after then g.retry_after else fallback_delay rate
