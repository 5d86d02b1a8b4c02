-- ===== src/Limiter/Budget/Runs/Tests.antt =====
-- Two keys of a limiter without a shared backend, whose buckets refill by one token in each
-- nanosecond.
use pace.Prelude.{
  ◌≡◌, ◌≢◌, ◌≤◌, ◌*◌, ◌+◌, ◌-◌, ℕ, leb, arith, none, List, [], ◌∷◌, true, false, if◌then◌else◌,
}
use pace.Prelude.Int.{ℤ, pos, pos_part, ◌-ℤ◌, ◌≤ℤ◌}
use pace.Prelude.Bytes.{Bytes, text, bytes_eq, bytes_eq_iff}
use pace.Prelude.Assoc
use pace.Bucket.{Quota, RateLib}
use pace.Bucket.Api.{bucket_api}
use pace.Registry.{Registry, empty_shard}
use pace.Registry.Owned.{replicate-IsOwned}
use pace.Registry.Population.{empty_shard-IsShard}
use pace.Limiter.Admission.{Limiter, Around}
use pace.Limiter.Engine
use pace.Limiter.Engine.{zeroes}
use pace.Limiter.Observer.Runs.{Call, allows, shuts, works, Tally, perform_all}
use pace.Limiter.Isolation.Keys.{IsSound, IsAway, Leaves-refl}
use pace.Limiter.Isolation.Keys.Runs.{tokens-perform_all}
use pace.Limiter.Budget.{CreditLaws}
use pace.Limiter.Budget.Runs.Bound.{Event, own, other}
use pace.Registry.Run.{creates}
use pace.Gate.{no_grant}
use pace.Shared.{deny, answered}
use pace.Samples.{Num, whole, floats, settings}

pub record Flow : Type 0 where
  pub limit : Num
  pub burst : ℕ
  pub level : ℕ
  pub at : ℤ

abbrev level_at : Flow → ℤ → ℕ
level_at l t =
    let full = l.level + pos_part (t -ℤ l.at) in if leb full l.burst then full else l.burst

abbrev spend : Flow → ℤ → ℤ → Flow
spend l t n = record l { level = level_at l t - pos_part n; at = t }

abbrev flowing : RateLib floats
flowing = record {
  Limiter = Flow;
  Held = Unit {0};
  new_limiter = λ r n. record { limit = r; burst = pos_part n; level = pos_part n; at = pos 0 };
  limit = λ l. l.limit;
  tokens_at = λ l t. whole (pos (level_at l t));
  allow_n = λ l t n. if leb (pos_part n) (level_at l t) then (spend l t n, true) else (l, false);
  reserve_n = λ l t n. (spend l t n, tt);
  held_ok = λ h. true;
  held_delay = λ h t. pos 0;
  cancel = λ l h t. l;
  set_limit_at = λ l t r. record l { limit = r };
  set_burst_at = λ l t n. record l { burst = pos_part n };
}

flow_later : (l : Flow) (t u : ℤ) → t ≤ℤ u → level_at l u ≤ level_at l t + 1 * pos_part (u -ℤ t)
unfolding ◌-ℤ◌
flow_later l t u h = ground arith

flow_allow :
    (l : Flow) (t : ℤ)
    → level_at (flowing.allow_n l t (pos 1)).0 t
        + (if (flowing.allow_n l t (pos 1)).1 then 1 else 0)
      ≤ level_at l t
unfolding ◌-ℤ◌
flow_allow l t = ground arith

flow_new : (r : Num) (n t : ℤ) → level_at (flowing.new_limiter r n) t ≤ pos_part n * 1
unfolding ◌-ℤ◌
flow_new r n t = ground arith

abbrev credits : CreditLaws flowing
credits = record {
  unit = 1;
  gain = λ r. 1;
  held = level_at;
  held-new = flow_new;
  held_later = λ l t u r h. flow_later l t u h;
  held-allow = λ l t r. flow_allow l t;
}

abbrev a : Bytes
a = text "a"

abbrev b : Bytes
b = text "b"

abbrev quota : Quota Num
quota = record { rate = whole (pos 2); burst = pos 5 }

abbrev empty : Registry (bucket_api flowing).Bkt
empty = record { shards = empty_shard ∷ empty_shard ∷ []; next_id = 0; evictions = 0 }

empty-IsSound : IsSound flowing empty
empty-IsSound = record {
  valid = record {
    sharded = omega arith;
    shards_valid = (empty_shard-IsShard, (empty_shard-IsShard, tt));
  };
  owned = replicate-IsOwned 2 0 0;
}

abbrev limiter : Limiter flowing
limiter = record {
  shutting_down = false;
  registry = empty;
  gate = none;
  spec = record { namespace = []; timeout = pos 1; on_error = deny };
  stats = zeroes;
}

abbrev tally : Tally flowing
tally = record { limiter = limiter; asked = 0; told = 0; failed = 0 }

abbrev around : ℤ → Around flowing
around t = record {
  now = t;
  owner = record {
    now = t;
    persists = false;
    load = λ k. none;
    quota_for = λ k. quota;
    others = λ r. r;
  };
  outside = record {
    now = t;
    answer = λ q. answered no_grant;
    owner_done = false;
    caller_error = none;
    failed_at = t;
  };
  meanwhile = λ b. b;
}

away : (j : Bytes) (t : ℤ) → IsAway flowing j (around t).owner
away j t = record { leaves = λ r s. Leaves-refl flowing j r s }

apart : b ≢ a
unfolding bytes_eq
apart h = let p : false ≡ true = (bytes_eq_iff b a).1 h in cc

apart_c : text "c" ≢ a
unfolding bytes_eq
apart_c h = let p : false ≡ true = (bytes_eq_iff (text "c") a).1 h in cc

abbrev calls : List (Call flowing)
calls = allows b (around (pos 3)) ∷ works (creates (text "c") quota none (pos 3)) ∷ shuts ∷ []

tokens-perform_all_example :
    (Engine.tokens flowing (perform_all flowing tally calls).limiter a (pos 9)
      ≡ Engine.tokens flowing limiter a (pos 9))
    × (Engine.quota flowing none settings (perform_all flowing tally calls).limiter a
        ≡ Engine.quota flowing none settings limiter a)
tokens-perform_all_example =
    tokens-perform_all flowing a tally calls none settings (pos 9) empty-IsSound
      ((apart, away a (pos 3)), (apart_c, (tt, tt)))

abbrev events : List (Event flowing)
events =
    own (around (pos 3))
    ∷ own (around (pos 3))
    ∷ other (allows b (around (pos 4)))
    ∷ own (around (pos 6))
    ∷ []
