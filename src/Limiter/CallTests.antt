-- ===== src/Limiter/CallTests.antt =====
-- Allow, Reserve and Cancel of limiter/ at fixed inputs.
use pace.Prelude.{◌≡◌, true, false, none, some, List, [], ◌∷◌, arith, refl}
use pace.Prelude.Int.{pos}
use pace.Prelude.Bytes.{Bytes, text}
use pace.Breaker.{fresh}
use pace.Bucket.{Bucket}
use pace.Bucket.Api.{bucket_api}
use pace.Gate.{Gate, no_grant, deadline_exceeded}
use pace.Gate.Rounds.{Parking}
use pace.Shared.{deny, answered}
use pace.Registry.{BucketApi, Registry, Entry, empty_shard}
use pace.Registry.Population.{IsValid, empty_shard-IsShard}
use pace.Limiter.Admission.{Limiter, Around, Counters, allow}
use pace.Limiter.Admission
use pace.Limiter.Admission.Outcomes.{allow_outcome}
use pace.Limiter.Reserve.{Reservation, reserve, cancel}
use pace.Limiter.Reserve
use pace.Limiter.Reserve.Outcomes.{reserve_outcome, cancel_once}
use pace.Limiter.Acquire.{Meets, parks}
use pace.Limiter.Observer.{stats}
use pace.Limiter.Observer.Runs.{Call, allows, waits, finishes, shuts, perform_all}
use pace.Limiter.Observer.Runs.Balance.{Agrees, stats-perform_all}
use pace.Limiter.Observer.Spends.{IsTame}
use pace.Samples.{whole, rates, bucket_of}

abbrev api : BucketApi
api = bucket_api rates

abbrev a : Bytes
a = text "a"

abbrev empty : Registry api.Bkt
empty = record { shards = empty_shard ∷ empty_shard ∷ []; next_id = 0; evictions = 0 }

empty-IsValid : IsValid empty
empty-IsValid = record {
  sharded = omega arith;
  shards_valid = (empty_shard-IsShard, (empty_shard-IsShard, tt));
}

abbrev limiter : Limiter rates
limiter = record {
  shutting_down = false;
  registry = empty;
  gate = some (record { breaker = fresh; takes = 0; refused = 0; failures = 0 });
  spec = record { namespace = text "n"; timeout = pos 1; on_error = deny };
  stats = record { requests = 0; throttled = 0; wait_nanos = 0; errors = 0 };
}

-- A backend that refuses, and an owner that knows no saved state.
abbrev around : Around rates
around = record {
  now = pos 100;
  owner = record {
    now = pos 100;
    persists = false;
    load = λ k. none;
    quota_for = λ k. record { rate = whole (pos 2); burst = pos 5 };
    others = λ r. empty;
  };
  outside = record {
    now = pos 100;
    answer = λ q. answered no_grant;
    owner_done = false;
    caller_error = none;
    failed_at = pos 101;
  };
  meanwhile = λ b. b;
}

allow_outcome_example :
    Admission.Outcomes.Does rates limiter a (pos 100) false (allow rates limiter a around)
allow_outcome_example = allow_outcome rates limiter a around empty-IsValid empty-IsValid

reserve_outcome_example :
    Reserve.Outcomes.Does rates limiter a (pos 100) false (reserve rates limiter a around)
reserve_outcome_example = reserve_outcome rates limiter a around empty-IsValid empty-IsValid

abbrev reservation : Reservation rates
reservation = record {
  key = a;
  id = 0;
  held = some (pos 3);
  delay = pos 0;
  ok = true;
  done = false;
}

cancel_once_example :
    cancel rates
      (cancel rates limiter reservation (pos 100)).0
      (cancel rates limiter reservation (pos 100)).1
      (pos 200)
    ≡ cancel rates limiter reservation (pos 100)
cancel_once_example = cancel_once rates limiter reservation (pos 100) (pos 200)

-- A backend whose Waiter fails because the caller's deadline has ended.
abbrev parking : Parking rates
parking = record {
  now = pos 100;
  answer = λ q. some (pos 5);
  owner_done = false;
  caller_error = some deadline_exceeded;
  failed_at = pos 101;
  parked = λ b. (b, none);
}

abbrev meets : Meets rates
meets = record {
  now = pos 100;
  owner = around.owner;
  way = parks parking;
  bucket_wait = λ b. (b, none);
  cancelled = false;
  failed_at = pos 102;
}

abbrev entry : Entry (Bucket rates)
entry = record { id = 0; bucket = bucket_of (pos 1); last_used = pos 100 }

abbrev gate : Gate
gate = record { breaker = fresh; takes = 0; refused = 0; failures = 0 }

abbrev called : List (Call rates)
called = allows a around ∷ waits a meets ∷ finishes true ∷ shuts ∷ allows a around ∷ []

tame : IsTame rates around.owner
tame = record { keeps = λ r v. empty-IsValid }

stats-perform_all_example :
    let t =
      perform_all rates (record { limiter = limiter; asked = 0; told = 0; failed = 0 }) called in
    IsValid t.limiter.registry × Agrees rates t (stats rates t.limiter)
stats-perform_all_example =
    stats-perform_all rates limiter called empty-IsValid refl (tame, (tame, (tt, (tt, (tame, tt)))))
