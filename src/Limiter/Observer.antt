-- ===== src/Limiter/Observer.antt =====
-- limiter/observer.go and limiter/stats.go: what the observer of a limiter is told, and the snapshot of
-- its counters.

pub mod Spends
pub mod Runs
use pace.Prelude.{ℕ, Bool, true, false, Option, none, some, List, [], ◌∷◌, if◌then◌else◌}
use pace.Prelude.Int.{ℤ, ◌-ℤ◌}
use pace.Prelude.Bytes.{Bytes}
use pace.Prelude.Word.{add_int64}
use pace.Float.{Float64}
use pace.Bucket.{RateLib, Bucket, time_sub}
use pace.Gate.{Gate}
use pace.Observe.{
  EvictReason, evict_idle, evict_explicit, evict_shutdown, EvictInfo, RequestInfo, Stats,
}
use pace.Registry
use pace.Registry.{Registry, Reason, idle, explicit, shutdown, Eviction}
use pace.Limiter.Admission.{Limiter, Counters}

-- Which hooks of the observer are set.
pub record Hooks : Type 0 where
  pub request_finished : Bool
  pub evicted : Bool

unfoldable pub evict_reason_of : Reason → EvictReason
evict_reason_of explicit = evict_explicit
evict_reason_of shutdown = evict_shutdown
evict_reason_of idle = evict_idle

-- onEvict: the calls of Observer.Evicted.
unfoldable pub on_evict : {Tok : Type 0} → Hooks → Eviction Tok → List (EvictInfo Tok)
unfolding evict_reason_of
on_evict h e =
    if h.evicted
    then record {
      key = e.key;
      reason = evict_reason_of e.reason;
      tokens = e.tokens;
      last_used = e.last_used;
    }
      ∷ []
    else []

-- `zero` is time.Time{}.
unfoldable pub start_timing : Hooks → ℤ → ℤ → ℤ
start_timing h zero now = if h.request_finished then now else zero

unfoldable pub count_failure : Counters → Bool → Counters
count_failure c failed = if failed then record c { errors = add_int64 c.errors 1 } else c

module _ {fl : Float64} (rl : RateLib fl) where
  -- FinishRequest, with the calls of Observer.RequestFinished.
  unfoldable pub finish_request :
      Hooks → Limiter rl → ℤ → ℤ → Bytes → Bytes → Bytes → ℕ → Bool → Limiter rl × List RequestInfo
  unfolding count_failure time_sub
  finish_request h l started now key method path status failed = (
    record l { stats = count_failure l.stats failed },
    if h.request_finished
        then record {
          key = key;
          method = method;
          path = path;
          status = status;
          latency = time_sub now started;
          failed = failed;
        }
          ∷ []
        else [],
  )

  abbrev pub with_gate : Option Gate → Stats → Stats
  with_gate none s = s
  with_gate (some g) s = record s {
    quota_takes = g.takes;
    quota_refused = g.refused;
    quota_errors = g.failures;
  }

  unfoldable pub stats : Limiter rl → Stats
  stats l = with_gate l.gate (record {
    keys = Registry.keys l.registry;
    requests = l.stats.requests;
    throttled = l.stats.throttled;
    wait_total = l.stats.wait_nanos;
    errors = l.stats.errors;
    evictions = l.registry.evictions;
    quota_takes = 0;
    quota_refused = 0;
    quota_errors = 0;
  })
