-- ===== src/Gate/Tests.antt =====
-- Calls of gate/gate.go and gate/admit.go at fixed inputs.
use pace.Prelude.{◌-◌, ◌^◌, ◌≡◌, ◌≢◌, refl, true, false, none, some, [], ◌∷◌, arith}
use pace.Prelude.Int.{◌-ℤ◌, ◌+ℤ◌, pos, ◌<ℤ◌}
use pace.Prelude.Bytes.{text}
use pace.Prelude.Word.{add_int64}
use pace.Breaker
use pace.Breaker.{fresh, zero_time}
use pace.Breaker.Invariant.{IsValid, fresh-IsValid}
use pace.Bucket
use pace.Shared.{deny, fallback_local, TakeRequest, Answer, answered, broke}
use pace.Gate.{Gate, Spec, Outside, canceled, take, poll_delay, no_grant}
use pace.Gate.Accounting.{take-tally, take-IsValid}
use pace.Gate.Delays.{poll_delay_overflow}
use pace.Gate.Rounds.{Parking}
use pace.Gate.Rounds.Polling.{
  Round, Loop, sleep, acquire, acquire_loop, round, pace_locally, ask, settle, retry,
}
use pace.Gate.Rounds.Reports.{IsReported, acquire-IsReported}
use pace.Gate.Rounds.Ends.{Any, Grants, acquire_ends}
use pace.Samples.{Num, whole, rates, bucket_of}

abbrev start : Gate
start = record { breaker = fresh; takes = 0; refused = 0; failures = 0 }

abbrev due : Gate
due = record start { breaker = record { failures = 0; open_till = pos 100; probing = false } }

abbrev probed : Gate
probed = record start { breaker = record { failures = 0; open_till = pos 100; probing = true } }

abbrev strict : Spec
strict = record { namespace = text "n"; timeout = pos 1; on_error = deny }

abbrev lenient : Spec
lenient = record strict { on_error = fallback_local }

abbrev yes_answer : TakeRequest Num → Answer Num
yes_answer q = answered (record { granted = true; retry_after = pos 0; remaining = none })

abbrev no_answer : TakeRequest Num → Answer Num
no_answer q = answered no_grant

abbrev broken : TakeRequest Num → Answer Num
broken q = broke (pos 7)

abbrev outside : (TakeRequest Num → Answer Num) → Outside Num
outside f = record {
  now = pos 100;
  answer = f;
  owner_done = false;
  caller_error = none;
  failed_at = pos 101;
}

abbrev left : Outside Num
left = record (outside broken) { caller_error = some canceled }

abbrev polls : (TakeRequest Num → Answer Num) → Round rates
polls f = record {
  before = λ b. b;
  now = pos 100;
  first_sleep = none;
  meanwhile = λ b. b;
  outside = outside f;
  rand = λ n. 0;
  retry_sleep = none;
}

abbrev parking : Parking rates
parking = record {
  now = pos 100;
  answer = λ q. some (pos 7);
  owner_done = true;
  caller_error = none;
  failed_at = pos 101;
  parked = λ b. (b, none);
}

due_not_zero : pos 100 ≢ zero_time
due_not_zero = ground arith

take-IsValid_example :
    IsValid (take strict start (text "k") (whole (pos 1)) (pos 1) (outside broken)).0.breaker
take-IsValid_example =
    take-IsValid strict start (text "k") (whole (pos 1)) (pos 1) (outside broken) (omega arith)
      fresh-IsValid

take-tally_example :
    (take strict start (text "k") (whole (pos 1)) (pos 1) (outside no_answer)).0.refused ≡ 1
unfolding take add_int64 Breaker.allow
take-tally_example =
    (take-tally strict start (text "k") (whole (pos 1)) (pos 1) (outside no_answer)).0

abbrev looping : Loop rates
looping = record { gate = start; bucket = bucket_of (pos 2); told = true; log = [] }

poll_delay_overflow_example :
    (poll_delay (λ n. 1) (pos (2 ^ 63 - 1)) <ℤ pos 0)
    × (sleep rates looping (poll_delay (λ n. 1) (pos (2 ^ 63 - 1))) ≡ looping)
poll_delay_overflow_example =
    poll_delay_overflow rates (λ n. 1) (2 ^ 63 - 1) looping (omega arith) (omega arith)
      (omega arith)

acquire-IsReported_example :
    IsReported
      (acquire rates strict start
        (text "k")
        (bucket_of (pos 2))
        (polls no_answer ∷ polls yes_answer ∷ [])).0.told
      (acquire rates strict start
        (text "k")
        (bucket_of (pos 2))
        (polls no_answer ∷ polls yes_answer ∷ [])).0.log
acquire-IsReported_example =
    acquire-IsReported rates strict start (text "k") (bucket_of (pos 2))
      (polls no_answer ∷ polls yes_answer ∷ [])

acquire_ends_example :
    Any rates (Grants rates (text "n") (text "k")) (polls no_answer ∷ polls yes_answer ∷ [])
unfolding acquire acquire_loop round pace_locally ask settle take retry Breaker.allow ◌-ℤ◌ ◌+ℤ◌
    Bucket.reserve_at Bucket.cancel_at Breaker.succeeded
acquire_ends_example =
    acquire_ends rates strict (text "k") start (bucket_of (pos 2))
      (polls no_answer ∷ polls yes_answer ∷ []) refl refl
