-- ===== src/Client/Pools.antt =====
-- client/pool.go and client/client.go: the pool that owns a limiter, and the handle of one key.
-- Transports and cookie jars are numbers that name them, and a context is its deadline.
pub mod Opening
mod Tests
use pace.Prelude.{ℕ, Bool, true, false, ◌⊎◌, inl, inr, Option, none, some, if◌then◌else◌}
use pace.Prelude.Int.{ℤ, pos, ◌+ℤ◌, leb_ℤ, min_ℤ}
use pace.Prelude.Bytes.{Bytes}
use pace.Float.{Float64}
use pace.Bucket.{RateLib, Quota}
use pace.Bucket.Api.{bucket_api}
use pace.Config.{Config, Error, Standard, resolve}
use pace.Config.Options.{Options}
use pace.Registry
use pace.Registry.{Snapshot}
use pace.Registry.Gc
use pace.Limiter.{quota_for}
use pace.Limiter.Admission
use pace.Limiter.Admission.{Limiter, Around, Answer}
use pace.Limiter.Reserve
use pace.Limiter.Reserve.{Reserved}
use pace.Limiter.Acquire.{Meets, Acquired}
use pace.Limiter.Engine
use pace.Urlx.{UrlLib}

-- An *http.Client.
pub record HttpClient : Type 0 where
  pub transport : Option ℕ
  pub jar : Option ℕ

abbrev pub earlier : Option ℤ → ℤ → Option ℤ
earlier none t = some t
earlier (some d) t = some (min_ℤ d t)

module _ {fl : Float64} (rl : RateLib fl) where
  open fl use {F}

  pub record Pool : Type 0 where
    pub lim : Limiter rl
    pub config : Config F
    pub options : Options F
    pub base_url : Bytes
    pub http_client : HttpClient
    pub request_timeout : ℤ
    pub max_response_bytes : ℤ

  abbrev pub pool_of : Config F → Options F → Limiter rl → Pool
  pool_of d o l = record {
    lim = l;
    config = d;
    options = o;
    base_url = d.base_url;
    http_client = record { transport = d.transport; jar = d.cookie_jar };
    request_timeout = d.request_timeout;
    max_response_bytes = d.max_response_bytes;
  }

  abbrev pub opened : Config F → Options F → Option (Limiter rl) → Option Pool
  opened d o none = none
  opened d o (some l) = some (pool_of d o l)

  -- New: the error of Resolve, or a pool; the inner `none` is a panic.
  unfoldable pub new : UrlLib → Standard → Config F → Options F → Error ⊎ Option Pool
  new ul std c o = elim (resolve fl ul std c) [
    | inl e ↦ inl e
    | inr d ↦ inr (opened d o (Engine.new rl d))
  ]

  unfoldable pub http_client_for : Pool → Bytes → HttpClient
  http_client_for p key = elim p.options.jar_for [
    | none ↦ p.http_client
    | some f ↦ record p.http_client { jar = f key p.http_client.jar }
  ]

  -- The deadline of the context that withRequestTimeout derives at `now`.
  unfoldable pub with_request_timeout : Pool → ℤ → Option ℤ → Option ℤ
  with_request_timeout p now deadline =
      if leb_ℤ p.request_timeout (pos 0)
      then deadline
      else earlier deadline (now +ℤ p.request_timeout)

  -- The deadline of the request that goes out: `deadline` is that of the context it was built with.
  unfoldable pub timed : Pool → Option ℤ → Option ℤ → Option ℤ
  timed p with_timeout deadline = if leb_ℤ p.request_timeout (pos 0) then deadline else with_timeout

  pub record Client : Type 0 where
    pub key : Bytes
    pub pool : Pool

  unfoldable pub client : Pool → Bytes → Client
  client p key = record { key = key; pool = p }

  unfoldable pub allow : Client → Around rl → Answer rl
  allow c a = Admission.allow rl c.pool.lim c.key a

  unfoldable pub wait : Client → Meets rl → Acquired rl
  wait c m = Engine.wait rl c.pool.lim c.key m

  unfoldable pub tokens : Client → ℤ → Option F
  tokens c now = Engine.tokens rl c.pool.lim c.key now

  unfoldable pub evict :
      Client
      → ℤ
      → Bool
      → (Snapshot F → Option ℤ)
      → Unit {0} ⊎ (Limiter rl × Gc.Evicted (bucket_api rl))
  evict c now persists save = Engine.evict rl c.pool.lim c.key now persists save

  unfoldable pub quota : Client → Quota F
  quota c = Engine.quota rl c.pool.options.quota_for c.pool.config c.pool.lim c.key

  unfoldable pub reserve : Client → Around rl → Reserved rl
  reserve c a = Reserve.reserve rl c.pool.lim c.key a

  -- ReloadQuota of limiter/quota.go.
  unfoldable pub reload_quota : Client → ℤ → Client × Bool
  reload_quota c now =
      let (r, had) =
        Registry.reload_key (bucket_api rl) c.pool.lim.registry c.key now
          (quota_for fl c.pool.options.quota_for c.pool.config) in
      (record c { pool = record c.pool { lim = record c.pool.lim { registry = r } } }, had)
