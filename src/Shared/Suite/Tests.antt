-- ===== src/Shared/Suite/Tests.antt =====
-- The checks of shared/quotatest/quotatest.go on a backend that counts, and starts afresh after a wait.
use pace.Prelude.{
  ℕ, ◌+◌, ltb, ◌&&◌, Bool, true, Option, none, some, [], ◌≡◌, refl, arith, if◌then◌else◌,
}
use pace.Prelude.Int.{ℤ, pos, pos_part}
use pace.Prelude.Bytes.{Bytes}
use pace.Shared.{TakeRequest, Grant, Answer, answered, broke}
use pace.Shared.Suite.{Subject, ask, suite}
use pace.Shared.Suite.Budgets.{Budgets, same}
use pace.Shared.Suite.Passes.{quota_suite_passes}
use pace.Shared.Suite.Sound.{Limits, suite-Limits}
use pace.Samples.{Num, floats}

abbrev Counts : Type 0
Counts = Bytes → Bytes → ℕ

abbrev has : Counts → TakeRequest Num → Bool
has l r = ltb (l r.namespace r.key) (pos_part r.burst)

abbrev grant_of : Counts → TakeRequest Num → Grant Num
grant_of l r = record {
  granted = has l r;
  retry_after = if has l r then pos 0 else pos 1_000_000_000;
  remaining = none;
}

abbrev draw : Counts → TakeRequest Num → Counts
draw l r s k = if same r.namespace r.key s k && has l r then l s k + 1 else l s k

abbrev take_by : Counts → Option ℤ → TakeRequest Num → Counts × Answer Num
take_by l none r = (draw l r, answered (grant_of l r))
take_by l (some e) r = (l, broke e)

abbrev counting : Subject floats
counting = record { Ledger = Counts; new_quota = λ s k. 0; take = take_by; sleep = λ l d s k. 0 }

counting-Budgets : Budgets counting
unfolding ask
counting-Budgets = record {
  spent = λ l s k. l s k;
  fresh = λ s k. refl;
  grant = grant_of;
  answers = λ l s k rate n. (refl, refl);
  draws = λ l s k s' k' rate n. refl;
  slow_retry = λ l s k n. ground arith;
  quick_retry = λ l s k n. ground arith;
  waited = λ l s k rate n p w late. ground arith;
  over = λ l r e. refl;
}

passes : suite counting (λ e. true) (pos 3) ≡ []
passes = quota_suite_passes counting counting-Budgets (λ e. true) (pos 3) refl

suite-Limits_example : Limits counting (λ e. true) (pos 3)
suite-Limits_example = suite-Limits counting (λ e. true) (pos 3) passes
