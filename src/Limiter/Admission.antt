-- ===== src/Limiter/Admission.antt =====
-- limiter/ratelimit.go, limiter/reserve.go, limiter/observer.go and limiter/api.go: the calls that
-- spend a key's tokens without blocking, and what they count and report.
pub mod Outcomes
use pace.Prelude.{
  ℕ, ◌+◌, ◌-◌, ◌%◌, ◌^◌, Bool, true, false, not, ◌&&◌, ◌||◌, Option, none, some, List, [], ◌∷◌,
  if◌then◌else◌,
}
use pace.Prelude.Int.{ℤ, pos, negsuc, ltb_ℤ, eq_ℤ}
use pace.Prelude.Bytes.{Bytes}
use pace.Prelude.Word.{add_int64}
use pace.Float.{Float64}
use pace.Bucket
use pace.Bucket.{Quota, RateLib, Bucket, inf}
use pace.Bucket.Api.{bucket_api}
use pace.Gate
use pace.Gate.{Gate, Spec, Outside, Taken, take, retry_delay}
use pace.Gate.Rounds.{Decision}
use pace.Registry
use pace.Registry.{
  Registry, Entry, Owner, shard_at, shard_for, put_shard, through, touch, get_or_create,
}

-- observe.ThrottleInfo
pub record Info (F : Type 0) : Type 0 where
  pub key : Bytes
  pub delay : ℤ
  pub tokens : F
  pub limit : F
  pub burst : ℤ

-- Bit patterns of int64.
pub record Counters : Type 0 where
  pub requests : ℕ
  pub throttled : ℕ
  pub wait_nanos : ℕ
  pub errors : ℕ

abbrev pub bits : ℤ → ℕ
bits (pos n) = n
bits (negsuc n) = 2 ^ 64 - 1 - n % 2 ^ 64

unfoldable pub count_throttled : Counters → ℤ → Counters
count_throttled c delay = record c {
  throttled = add_int64 c.throttled 1;
  wait_nanos = add_int64 c.wait_nanos (bits delay);
}

unfoldable pub count_request : Counters → Counters
count_request c = record c { requests = add_int64 c.requests 1 }

module _ {fl : Float64} (rl : RateLib fl) where
  open fl use {F}
  open rl use {Held, held_ok, held_delay}

  pub record Limiter : Type 0 where
    pub shutting_down : Bool
    pub registry : Registry (Bucket rl)
    pub gate : Option Gate
    pub spec : Spec
    pub stats : Counters

  -- What one call meets: the clock, the owner that answers the registry, and the shared backend with
  -- what others do to the bucket while it is asked.
  pub record Around : Type 0 where
    pub now : ℤ
    pub owner : Owner (bucket_api rl)
    pub outside : Outside F
    pub meanwhile : Bucket rl → Bucket rl

  unfoldable pub shared_enabled : Option Gate → Quota F → Bool
  shared_enabled none q = false
  shared_enabled (some g) q = not (fl.eq q.rate (inf fl))

  abbrev or_shared : Option F → F → F
  or_shared none tokens = tokens
  or_shared (some tokens) _ = tokens

  unfoldable pub throttle_info : Bytes → Bucket rl → ℤ → ℤ → Option F → Info F
  throttle_info key b delay t shared = record {
    key = key;
    delay = delay;
    tokens = or_shared shared (Bucket.tokens_at rl b t);
    limit = b.quota.rate;
    burst = b.quota.burst;
  }

  -- A write through the pointer to a key's entry.
  unfoldable pub write :
      Registry (Bucket rl)
      → Bytes
      → ℕ
      → (Entry (Bucket rl) → Entry (Bucket rl))
      → Registry (Bucket rl)
  write r key id f =
      let sh = shard_for r key in
      put_shard r (shard_at r key) (record sh { keys = through id f sh.keys })

  -- The limiter after a call that leaves the bucket and the gate so, and reports `infos`.
  abbrev pub spent :
      Limiter
      → Registry (Bucket rl)
      → Bytes
      → Entry (Bucket rl)
      → ℤ
      → Bucket rl
      → Option Gate
      → Counters
      → Limiter
  spent l r key e now b g stats = record l {
    registry = write r key e.id (λ x. record (touch x now) { bucket = b });
    gate = g;
    stats = stats;
  }

  pub record Answer : Type 0 where
    pub limiter : Limiter
    pub ok : Bool
    pub infos : List (Info F)

  abbrev pub allow_local :
      Limiter → Registry (Bucket rl) → Bytes → Entry (Bucket rl) → ℤ → Bucket rl × Bool → Answer
  allow_local l r key e now (b, true) = record {
    limiter = spent l r key e now b l.gate (count_request l.stats);
    ok = true;
    infos = [];
  }
  allow_local l r key e now (b, false) =
      let delay = Bucket.delay_at rl b now in
      record {
        limiter = spent l r key e now b l.gate (count_throttled (count_request l.stats) delay);
        ok = false;
        infos = throttle_info key b delay now none ∷ [];
      }

  abbrev pub allow_shared :
      Limiter → Registry (Bucket rl) → Bytes → Entry (Bucket rl) → ℤ → Bool → Decision rl → Answer
  allow_shared l r key e now true d = record {
    limiter = spent l r key e now d.bucket (some d.gate) (count_request l.stats);
    ok = true;
    infos = [];
  }
  allow_shared l r key e now false d = record {
    limiter =
        spent l r key e now d.bucket (some d.gate)
          (count_throttled (count_request l.stats) d.delay);
    ok = false;
    infos = throttle_info key d.bucket d.delay now d.tokens ∷ [];
  }

  abbrev pub allow_through :
      Limiter
      → Registry (Bucket rl)
      → Bytes
      → Entry (Bucket rl)
      → Around
      → Option Gate
      → Bool
      → Answer
  allow_through l r key e a (some g) true =
      let d = Gate.Rounds.allow rl l.spec g key e.bucket a.now a.outside a.meanwhile in
      allow_shared l r key e a.now d.ok d
  allow_through l r key e a _ _ = allow_local l r key e a.now (Bucket.allow_at rl e.bucket a.now)

  abbrev pub allow_entry :
      Limiter → Bytes → Around → Registry (Bucket rl) × Entry (Bucket rl) → Answer
  allow_entry l key a (r, e) =
      allow_through l r key e a l.gate (shared_enabled l.gate e.bucket.quota)

  abbrev pub allow_if : Limiter → Bytes → Around → Bool → Answer
  allow_if l key a true = record { limiter = l; ok = false; infos = [] }
  allow_if l key a false =
      allow_entry l key a (get_or_create (bucket_api rl) l.registry key a.owner)

  unfoldable pub allow : Limiter → Bytes → Around → Answer
  unfolding get_or_create shared_enabled
  allow l key a = allow_if l key a l.shutting_down
