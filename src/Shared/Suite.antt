-- ===== src/Shared/Suite.antt =====
-- shared/quotatest/quotatest.go: the checks that every shared backend is to pass, as functions of a
-- backend. A check returns what it reports; Fatal ends it at once, and Skip is an end without a report.
pub mod Budgets
pub mod Passes
pub mod Sound
mod Tests
use pace.Prelude.{
  ℕ, zero, suc, ◌+◌, ◌==◌, ltb, Bool, true, false, not, Option, none, some, List, [], ◌∷◌, ◌++◌,
  if◌then◌else◌,
}
use pace.Prelude.Int.{ℤ, pos, leb_ℤ, ltb_ℤ}
use pace.Prelude.Bytes.{Bytes, text}
use pace.Float.{Float64}
use pace.Shared.{TakeRequest, Grant, Answer, answered, broke}

-- A Backend under test: its state, its Take by ctx.Err(), and what time does to it.
pub record Subject (fl : Float64) : Type 1 where
  pub Ledger : Type 0
  pub new_quota : Ledger
  pub take : Ledger → Option ℤ → TakeRequest fl.F → Ledger × Answer fl.F
  pub sleep : Ledger → ℤ → Ledger

pub data Fault : Type 0 where
  take_failed : ℤ → Fault
  refused over_granted overcharged retry_too_long retry_too_short : Fault
  keys_share namespaces_share none_granted : Fault
  context_ignored wrong_error granted_unserved : Fault

abbrev pub alice : Bytes
alice = text "alice"

abbrev pub bob : Bytes
bob = text "bob"

abbrev pub pacetest : Bytes
pacetest = text "pacetest"

abbrev pub other_space : Bytes
other_space = text "pacetest-other"

abbrev pub hour : ℤ
hour = pos 3_600_000_000_000

abbrev pub minute : ℤ
minute = pos 60_000_000_000

module _ (fl : Float64) where
  open fl use {F, of_int, div}

  -- One token an hour, and twenty a second.
  abbrev pub slow : F
  slow = div (of_int (pos 1)) (of_int (pos 3600))

  abbrev pub quick : F
  quick = of_int (pos 20)

  unfoldable pub ask : Bytes → Bytes → F → ℕ → TakeRequest F
  ask space key rate burst = record {
    key = key;
    namespace = space;
    tokens = pos 1;
    rate = rate;
    burst = pos burst;
  }

module _ {fl : Float64} (b : Subject fl) where
  open fl use {F}
  open b use {Ledger, new_quota}

  -- take of the suite, and what the check does after it.
  abbrev pub then_taken : (Ledger → Grant F → List Fault) → Ledger × Answer F → List Fault
  then_taken f (l, answered g) = f l g
  then_taken f (l, broke e) = take_failed e ∷ []

  unfoldable pub taking : Ledger → TakeRequest F → (Ledger → Grant F → List Fault) → List Fault
  taking l r f = then_taken f (b.take l none r)

  -- A loop of takes whose answers do not matter.
  unfoldable pub spend : ℕ → Ledger → TakeRequest F → (Ledger → List Fault) → List Fault
  spend zero l r f = f l
  spend (suc n) l r f = taking l r (λ m g. spend n m r f)

  -- A loop of takes each of which is to be granted, or each of which is to be refused.
  unfoldable pub all_granted : ℕ → Ledger → TakeRequest F → List Fault
  all_granted zero l r = []
  all_granted (suc n) l r =
      taking l r (λ m g. let rest = all_granted n m r in if g.granted then rest else refused ∷ [])

  unfoldable pub none_granted_of : ℕ → Ledger → TakeRequest F → (Ledger → List Fault) → List Fault
  none_granted_of zero l r f = f l
  none_granted_of (suc n) l r f =
      taking l r
        (λ m g. let rest = none_granted_of n m r f in if g.granted then over_granted ∷ [] else rest)

  abbrev pub slowly : Bytes → Bytes → ℕ → TakeRequest F
  slowly space key burst = ask fl space key (slow fl) burst

  unfoldable pub grants_within_burst : List Fault
  grants_within_burst = all_granted 5 new_quota (slowly pacetest alice 5)

  -- A take that is to be refused, and one that is not.
  abbrev pub to_refuse : Fault → Grant F → List Fault
  to_refuse fault g = if g.granted then fault ∷ [] else []

  abbrev pub to_grant : Fault → Grant F → List Fault
  to_grant fault g = if g.granted then [] else fault ∷ []

  unfoldable pub refuses_beyond_burst : List Fault
  refuses_beyond_burst =
      spend 3 new_quota (slowly pacetest alice 3)
        (λ l. taking l (slowly pacetest alice 3) (λ m g. to_refuse over_granted g))

  abbrev pub schedule : ℤ → Grant F → List Fault
  schedule most g =
      if g.granted
      then []
      else if leb_ℤ g.retry_after (pos 0)
      then []
      else if ltb_ℤ most g.retry_after
      then overcharged ∷ []
      else []

  unfoldable pub refusal_consumes_nothing : List Fault
  refusal_consumes_nothing = spend 2 new_quota (slowly pacetest alice 2) (λ l.
      none_granted_of 20 l (slowly pacetest alice 2)
        (λ m. taking m (slowly pacetest alice 2) (λ n g. schedule (pos 7_200_000_000_000) g)))

  abbrev pub quickly : TakeRequest F
  quickly = ask fl pacetest alice (quick fl) 1

  -- What follows the second take.
  abbrev pub retried : Ledger → Grant F → List Fault
  retried l g =
      let again = taking (b.sleep l g.retry_after) quickly (λ m h. to_grant retry_too_short h) in
      if g.granted
      then []
      else if leb_ℤ g.retry_after (pos 0)
      then []
      else if ltb_ℤ minute g.retry_after
      then retry_too_long ∷ []
      else again

  unfoldable pub retry_after_is_long_enough : List Fault
  retry_after_is_long_enough = spend 1 new_quota quickly (λ l. taking l quickly retried)

  unfoldable pub keys_are_independent : List Fault
  keys_are_independent =
      spend 5 new_quota (slowly pacetest alice 2)
        (λ l. taking l (slowly pacetest bob 2) (λ m g. to_grant keys_share g))

  unfoldable pub namespaces_are_independent : List Fault
  namespaces_are_independent =
      spend 5 new_quota (slowly pacetest alice 2)
        (λ l. taking l (slowly other_space alice 2) (λ m g. to_grant namespaces_share g))

  abbrev pub one_if : Answer F → ℕ
  one_if (answered g) = if g.granted then 1 else 0
  one_if (broke e) = 0

  -- The racers' takes, served one after the other, and how many were granted.
  unfoldable pub race : ℕ → Ledger → TakeRequest F → ℕ
  race zero l r = 0
  race (suc n) l r = let (m, a) = b.take l none r in one_if a + race n m r

  abbrev pub judged : ℕ → List Fault
  judged granted =
      (if ltb 10 granted then over_granted ∷ [] else [])
      ++ (if granted == 0 then none_granted ∷ [] else [])

  unfoldable pub concurrent_takes_do_not_over_grant : List Fault
  concurrent_takes_do_not_over_grant = judged (race 64 new_quota (slowly pacetest alice 10))

  -- `is_canceled` is errors.Is(err, context.Canceled).
  abbrev pub reported : (ℤ → Bool) → Answer F → List Fault
  reported is_canceled (broke e) = if is_canceled e then [] else wrong_error ∷ []
  reported is_canceled (answered g) =
      context_ignored ∷ wrong_error ∷ (if g.granted then granted_unserved ∷ [] else [])

  unfoldable pub honours_context_cancellation : (ℤ → Bool) → ℤ → List Fault
  honours_context_cancellation is_canceled canceled =
      reported is_canceled (b.take new_quota (some canceled) (slowly pacetest alice 5)).1

  unfoldable pub suite : (ℤ → Bool) → ℤ → List Fault
  suite is_canceled canceled =
      grants_within_burst
      ++ refuses_beyond_burst
      ++ refusal_consumes_nothing
      ++ retry_after_is_long_enough
      ++ keys_are_independent
      ++ namespaces_are_independent
      ++ concurrent_takes_do_not_over_grant
      ++ honours_context_cancellation is_canceled canceled
