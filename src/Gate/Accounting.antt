-- ===== src/Gate/Accounting.antt =====
-- What one call of `Take` in gate/gate.go does to the breaker and the three counters.
use pace.Prelude.{
  ℕ, ◌≡◌, ◌≢◌, Bool, true, false, not, ◌&&◌, ◌||◌, ◌⊎◌, Option, none, some, arith, if◌then◌else◌,
}
use pace.Prelude.Int.{ℤ, ◌≤ℤ◌}
use pace.Prelude.Bytes.{Bytes}
use pace.Prelude.Word.{add_int64}
use pace.Breaker.{zero_time, allow, succeeded, failed, abandoned}
use pace.Breaker.Invariant.{IsValid, reopened}
use pace.Shared.{deny, answered, broke}
use pace.Gate.Rounds.{is_none}
use pace.Gate.{Gate, Spec, Outside, Taken, GateError, unavailable, take, request, on_unavailable}

-- What a caller can tell from the outcome alone: the backend refused, or gave no answer.
abbrev pub is_unavailable : Option GateError → Bool
is_unavailable (some (unavailable e)) = true
is_unavailable e = false

abbrev pub is_refusal : {F : Type 0} → Taken F → Bool
is_refusal t = not t.proceed && is_none t.error

abbrev pub is_failure : {F : Type 0} → Taken F → Bool
is_failure t = is_unavailable t.error || (t.proceed && not t.grant.granted)

abbrev pub tally : Bool → ℕ → ℕ
tally b n = if b then add_int64 n 1 else n

module _ {F : Type 0} (s : Spec) (g : Gate) (key : Bytes) (rate : F) (burst : ℤ)
    (o : Outside F) where
  -- The breaker's probe never outlives a call of `Take`: a probe that is out afterwards was out
  -- before, and the backend was not called.
  take-probing :
      (take s g key rate burst o).0.breaker.probing ≡ true
      → (g.breaker.probing ≡ true) × ((take s g key rate burst o).0.takes ≡ g.takes)
  unfolding take allow succeeded failed abandoned
  take-probing h = ground arith

  pub take-IsValid :
      zero_time ≤ℤ o.failed_at → IsValid g.breaker → IsValid (take s g key rate burst o).0.breaker
  unfolding take allow succeeded failed abandoned
  take-IsValid h v = ground (arith, reopened o.failed_at h)

  -- The counters agree with what the callers saw: a refusal is counted as one, a call without an
  -- answer as an error whatever the policy made of it, and a call whose caller or owner has left as
  -- neither.
  pub take-tally :
      ((take s g key rate burst o).0.refused
        ≡ tally (is_refusal (take s g key rate burst o).1) g.refused)
      × ((take s g key rate burst o).0.failures
          ≡ tally (is_failure (take s g key rate burst o).1) g.failures)
      × ((take s g key rate burst o).0.takes ≡ tally (allow g.breaker o.now).1 g.takes)
  unfolding take on_unavailable
  take-tally = ground arith

  -- Under Deny a request proceeds only on a grant of the backend to the question that the gate asked.
  pub take-deny :
      s.on_error ≡ deny
      → (take s g key rate burst o).1.proceed ≡ true
      → (o.answer (request s key rate burst) ≡ answered (take s g key rate burst o).1.grant)
        × ((take s g key rate burst o).1.grant.granted ≡ true)
  unfolding take on_unavailable
  take-deny d h = ground arith

  -- A caller who left, or an owner that closed, before a failure came back does not proceed under
  -- any policy, and is not held against the backend.
  pub take_left :
      (e : ℤ)
      → (allow g.breaker o.now).1 ≡ true
      → o.answer (request s key rate burst) ≡ broke e
      → (o.owner_done ≡ true) ⊎ (o.caller_error ≢ none)
      → ((take s g key rate burst o).1.proceed ≡ false)
        × ((take s g key rate burst o).1.error ≢ none)
        × ((take s g key rate burst o).0.failures ≡ g.failures)
        × ((take s g key rate burst o).0.breaker.failures ≡ g.breaker.failures)
        × ((take s g key rate burst o).0.breaker.open_till ≡ g.breaker.open_till)
  unfolding take allow abandoned
  take_left e h b l = ground arith
