-- ===== src/Shared.antt =====
-- shared/shared.go: what the gate asks of a token supply that other processes share.
pub mod Suite
use pace.Prelude.{Option, Bool}
use pace.Prelude.Int.{ℤ}
use pace.Prelude.Bytes.{Bytes, text}

-- An ErrorPolicy is an int; `other` is a value with no name.
pub data ErrorPolicy : Type 0 where
  fallback_local deny allow_all : ErrorPolicy
  other : ℤ → ErrorPolicy

unfoldable pub policy_string : ErrorPolicy → Bytes
policy_string fallback_local = text "fallback-local"
policy_string deny = text "deny"
policy_string allow_all = text "allow"
policy_string (other n) = text "unknown"

pub record TakeRequest (F : Type 0) : Type 0 where
  pub key : Bytes
  pub namespace : Bytes
  pub tokens : ℤ
  pub rate : F
  pub burst : ℤ

pub record Grant (F : Type 0) : Type 0 where
  pub granted : Bool
  pub retry_after : ℤ
  pub remaining : Option F

-- What Backend.Take returns: a grant, or an error.
pub data Answer (F : Type 0) : Type 0 where
  answered : Grant F → Answer F
  broke : ℤ → Answer F
