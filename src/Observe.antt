-- ===== src/Observe.antt =====
-- observe/observe.go: what a limiter tells its observer. A status of 0 stands for no response.
use pace.Prelude.{ℕ, Bool}
use pace.Prelude.Int.{ℤ}
use pace.Prelude.Bytes.{Bytes, text}

-- An EvictReason is an int; `other` is a value with no name.
pub data EvictReason : Type 0 where
  evict_idle evict_explicit evict_shutdown : EvictReason
  other : ℤ → EvictReason

unfoldable pub reason_string : EvictReason → Bytes
reason_string evict_idle = text "idle"
reason_string evict_explicit = text "explicit"
reason_string evict_shutdown = text "shutdown"
reason_string (other n) = text "unknown"

pub record EvictInfo (Tok : Type 0) : Type 0 where
  pub key : Bytes
  pub reason : EvictReason
  pub tokens : Tok
  pub last_used : ℤ

-- `failed` is whether Err is not nil.
pub record RequestInfo : Type 0 where
  pub key : Bytes
  pub method : Bytes
  pub path : Bytes
  pub status : ℕ
  pub latency : ℤ
  pub failed : Bool

-- Bit patterns of int64.
pub record Stats : Type 0 where
  pub keys : ℕ
  pub requests : ℕ
  pub throttled : ℕ
  pub wait_total : ℕ
  pub errors : ℕ
  pub evictions : ℕ
  pub quota_takes : ℕ
  pub quota_refused : ℕ
  pub quota_errors : ℕ
