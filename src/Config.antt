-- ===== src/Config.antt =====
-- config/config.go and config/options.go: the settings, their check and their defaults. Interface
-- values (a clock, a logger, a transport, ...) are numbers that name them, `none` being nil.
pub mod Options
pub mod Rounding
use pace.Prelude.{
  ℕ, zero, suc, ◌*◌, ◌%◌, ◌^◌, Bool, ◌||◌, ltb, ◌⊎◌, inl, inr, Option, none, some, List, [], ◌∷◌,
  if◌then◌else◌,
}
use pace.Prelude.Int.{ℤ, pos, negsuc, leb_ℤ, ltb_ℤ}
use pace.Prelude.Bytes.{Bytes}
use pace.Float.{Float64, zero_f}
use pace.Bucket.{Quota, finite}
use pace.Shared.{ErrorPolicy}
use pace.Registry.{default_shards}
use pace.Urlx
use pace.Urlx.{UrlLib, UrlError, is_empty}

pub data Field : Type 0 where
  base_url quota shards : Field

-- Error.Field and the reason in Error.Err.
pub data Reason : Type 0 where
  required : Reason
  bad_url : UrlError → Reason
  rate_not_positive : Reason
  too_many : Reason

pub record Error : Type 0 where
  pub field : Field
  pub reason : Reason

-- shared.Config
pub record Sharing : Type 0 where
  pub backend : Option ℕ
  pub namespace : Bytes
  pub timeout : ℤ
  pub on_error : ErrorPolicy

pub record Config (F : Type 0) : Type 0 where
  pub base_url : Bytes
  pub idle_expiry : ℤ
  pub gc_interval : ℤ
  pub transport : Option ℕ
  pub cookie_jar : Option ℕ
  pub max_response_bytes : ℤ
  pub request_timeout : ℤ
  pub clock : Option ℕ
  pub logger : Option ℕ
  pub store : Option ℕ
  pub store_timeout : ℤ
  pub quota : Quota F
  pub shared : Sharing
  pub shards : ℤ
  pub observer : Option ℕ

-- What withDefaults takes in place of nil.
pub record Standard : Type 0 where
  pub clock : ℕ
  pub logger : ℕ
  pub transport : ℕ

abbrev pub max_shards : ℕ
max_shards = 2 ^ 20

-- for p < n { p <<= 1 }, at most `fuel` times
abbrev pub double_to : ℕ → ℕ → ℕ → ℕ
double_to zero n p = p
double_to (suc fuel) n p =
    let rest = double_to fuel n (p * 2 % 2 ^ 64) in if ltb p n then rest else p

unfoldable pub round_up_power_of_two : ℤ → ℕ
round_up_power_of_two (negsuc n) = default_shards
round_up_power_of_two (pos zero) = default_shards
round_up_power_of_two (pos (suc n)) =
    double_to 64 (if ltb max_shards (suc n) then max_shards else suc n) 1

abbrev pub or_else : Option ℕ → ℕ → Option ℕ
or_else none d = some d
or_else (some x) d = some x

abbrev pub positive_or : ℤ → ℤ → ℤ
positive_or d default = if leb_ℤ d (pos 0) then default else d

module _ (fl : Float64) where
  open fl use {F, is_nan, le}

  module _ (ul : UrlLib) where
    unfoldable pub validate : Config F → Option Error
    validate c =
        if is_empty c.base_url
        then some (record { field = base_url; reason = required })
        else elim (Urlx.validate ul c.base_url) [
          | some e ↦ some (record { field = base_url; reason = bad_url e })
          | none ↦
              (if le c.quota.rate (zero_f fl) || is_nan c.quota.rate
                then some (record { field = quota; reason = rate_not_positive })
                else if ltb_ℤ (pos max_shards) c.shards
                then some (record { field = shards; reason = too_many })
                else none)
        ]

  unfoldable pub with_defaults : Standard → Config F → Config F
  unfolding finite round_up_power_of_two
  with_defaults std c = record c {
    quota = record { rate = finite fl c.quota.rate; burst = positive_or c.quota.burst (pos 1) };
    shards = pos (round_up_power_of_two c.shards);
    idle_expiry = positive_or c.idle_expiry (pos 600_000_000_000);
    gc_interval = positive_or c.gc_interval (pos 60_000_000_000);
    store_timeout = positive_or c.store_timeout (pos 5_000_000_000);
    shared = record c.shared { timeout = positive_or c.shared.timeout (pos 500_000_000) };
    clock = or_else c.clock std.clock;
    logger = or_else c.logger std.logger;
    transport = or_else c.transport std.transport;
  }

  abbrev pub checked : Standard → Config F → Option Error → Error ⊎ Config F
  checked std c (some e) = inl e
  checked std c none = inr (with_defaults std c)

  unfoldable pub resolve : UrlLib → Standard → Config F → Error ⊎ Config F
  unfolding validate with_defaults
  resolve ul std c = checked std c (validate ul c)
