-- ===== src/Limiter/Engine.antt =====
-- limiter/limiter.go and limiter/api.go: how a limiter is put together, and what it answers its owner.
-- Interface values of the settings are numbers that name them.
pub mod Assembly
pub mod Reloads
mod Tests
use pace.Prelude.{
  Bool, true, false, not, ◌⊎◌, inl, inr, Option, none, some, ℕ, List, [], if◌then◌else◌,
}
use pace.Prelude.Int.{ℤ, pos_part}
use pace.Prelude.Bytes.{Bytes}
use pace.Float.{Float64}
use pace.Bucket
use pace.Bucket.{Quota, RateLib, Bucket}
use pace.Bucket.Api.{bucket_api}
use pace.Config.{Config}
use pace.Gate
use pace.Gate.{Gate, Wired}
use pace.Registry
use pace.Registry.{Registry, Entry, Snapshot, new_registry}
use pace.Registry.Gc
use pace.Limiter
use pace.Limiter.{is_nil, validate, quota_for}
use pace.Limiter.Admission.{Limiter, Counters}
use pace.Limiter.Acquire.{AcquireError, closed, Meets, Acquired, acquire}
use pace.Limiter.Persist.{Persistence}

abbrev pub present : Option Gate → Option (Option Gate)
present none = none
present (some g) = some (some g)

module _ {F : Type 0} where
  -- newState, without the store's contents and the settings of time and log.
  unfoldable pub new_state : Config F → Persistence
  new_state c = record {
    has_store = not (is_nil c.store);
    shadowed = not (is_nil c.shared.backend);
  }

  -- What newGate sets of the gate's Spec.
  abbrev pub wired : Config F → Wired
  wired c = record {
    has_backend = not (is_nil c.shared.backend);
    has_logger = not (is_nil c.logger);
    has_now = not (is_nil c.clock);
    has_closed = true;
    has_throttled = true;
    has_before_wait = true;
    has_before_take = true;
  }

  abbrev pub gate_spec : Config F → Gate.Spec
  gate_spec c = record {
    namespace = c.shared.namespace;
    timeout = c.shared.timeout;
    on_error = c.shared.on_error;
  }

  -- newGate; the outer `none` is a panic.
  unfoldable pub new_gate : Config F → Option (Option Gate)
  new_gate c =
      if is_nil c.shared.backend then some none else present (Gate.new_gate (wired c) (gate_spec c))

abbrev pub zeroes : Counters
zeroes = record { requests = 0; throttled = 0; wait_nanos = 0; errors = 0 }

module _ {fl : Float64} (rl : RateLib fl) where
  open fl use {F}

  abbrev pub assembled :
      Config F → Option (Registry (Bucket rl)) → Option (Option Gate) → Option (Limiter rl)
  assembled c none g = none
  assembled c (some r) none = none
  assembled c (some r) (some g) =
      some (record {
        shutting_down = false;
        registry = r;
        gate = g;
        spec = gate_spec c;
        stats = zeroes;
      })

  -- New; `none` is a panic.
  unfoldable pub new : Config F → Option (Limiter rl)
  new c = elim (validate fl c) [
    | some p ↦ none
    | none ↦ assembled c (new_registry (pos_part c.shards)) (new_gate c)
  ]

  abbrev pub wait_if : Limiter rl → Bytes → Meets rl → Bool → Acquired rl
  wait_if l key m true = record { limiter = l; result = some (some closed); delays = [] }
  wait_if l key m false = acquire rl l key m

  -- Wait; the registration that it takes is released when it returns.
  unfoldable pub wait : Limiter rl → Bytes → Meets rl → Acquired rl
  wait l key m = wait_if l key m l.shutting_down

  unfoldable pub tokens : Limiter rl → Bytes → ℤ → Option F
  tokens l key now = elim (Registry.lookup l.registry key) [
    | none ↦ none
    | some e ↦ some (Bucket.tokens_at rl e.bucket now)
  ]

  abbrev pub quota_of : Quota F → Option (Entry (Bucket rl)) → Quota F
  quota_of q none = q
  quota_of q (some e) = e.bucket.quota

  unfoldable pub quota :
      Option (Bytes → Quota F → Quota F) → Config F → Limiter rl → Bytes → Quota F
  quota hook c l key = quota_of (quota_for fl hook c key) (Registry.lookup l.registry key)

  -- `clock` is read once for each key.
  unfoldable pub reload_quotas :
      Option (Bytes → Quota F → Quota F) → Config F → Limiter rl → (ℕ → ℤ) → Limiter rl
  reload_quotas hook c l clock = record l {
    registry = Registry.reload (bucket_api rl) l.registry clock (quota_for fl hook c);
  }

  -- Evict, with the limiter and what is told of it; ErrClosed on the left.
  unfoldable pub evict :
      Limiter rl
      → Bytes
      → ℤ
      → Bool
      → (Snapshot F → Option ℤ)
      → Unit {0} ⊎ (Limiter rl × Gc.Evicted (bucket_api rl))
  evict l key now observes save =
      if l.shutting_down
      then inl tt
      else (let e = Gc.evict (bucket_api rl) l.registry key now observes save in
          inr (record l { registry = e.registry }, e))
