-- ===== src/Gate/Fleet.antt =====
-- Replicas with gates (gate/gate.go) before one shared backend (shared/shared.go), which keeps the
-- account.
pub mod Bound
mod Tests
use pace.Prelude.{
  ℕ, ◌+◌, ◌*◌, ◌≤◌, ◌≡◌, ◌&&◌, Bool, true, false, Option, none, List, [], ◌∷◌, get_or, set,
  if◌then◌else◌,
}
use pace.Prelude.Int.{ℤ, pos, pos_part, ◌≤ℤ◌, ◌-ℤ◌}
use pace.Prelude.Bytes.{Bytes, bytes_eq}
use pace.Breaker
use pace.Gate.{CtxError, Gate, Spec, Outside, take, request}
use pace.Shared.{TakeRequest, Answer, answered, broke}

-- A Backend, asked at an instant of its own clock.
pub record Backend (F : Type 0) : Type 1 where
  pub Ledger : Type 0
  pub ask : Ledger → ℤ → TakeRequest F → Ledger × Answer F

abbrev pub is_granted : {F : Type 0} → Answer F → Bool
is_granted (answered g) = g.granted
is_granted (broke e) = false

abbrev pub draws_on : {F : Type 0} → TakeRequest F → Bytes → Bytes → Bool
draws_on r space key = bytes_eq r.namespace space && bytes_eq r.key key

-- A request that draws on the key asks with this rate and burst, and for no negative number of tokens.
abbrev pub IsRated : {F : Type 0} → Bytes → Bytes → F → ℤ → TakeRequest F → Type 0
IsRated space key rate burst r =
    draws_on r space key ≡ true → (r.rate ≡ rate) × ((r.burst ≡ burst) × (pos 0 ≤ℤ r.tokens))

-- What shared/shared.go asks of a Backend, for one key of a namespace whose callers all use one rate
-- and one burst: it holds credit, `unit` of it for a token, and gains no more than `gain` in a
-- nanosecond. A grant is paid for, token by token, and nothing is gained by asking, for this key or
-- for another.
pub record AccountLaws {F : Type 0} (b : Backend F) (space key : Bytes) (rate : F) (burst : ℤ)
    : Type 0 where
  pub unit : ℕ
  pub gain : ℕ
  pub held : b.Ledger → ℤ → ℕ
  pub held_later :
      (l : b.Ledger) (t u : ℤ) → t ≤ℤ u → held l u ≤ held l t + gain * pos_part (u -ℤ t)
  pub held-ask :
      (l : b.Ledger) (t : ℤ) (r : TakeRequest F)
      → IsRated space key rate burst r
      → held (b.ask l t r).0 t
          + (if draws_on r space key && is_granted (b.ask l t r).1
              then unit * pos_part r.tokens
              else 0)
        ≤ held l t

-- One call of Take by a replica, with what it meets besides the backend.
pub record Attempt (F : Type 0) : Type 0 where
  pub replica : ℕ
  pub key : Bytes
  pub rate : F
  pub burst : ℤ
  pub at : ℤ
  pub now : ℤ
  pub owner_done : Bool
  pub caller_error : Option CtxError
  pub failed_at : ℤ

module _ {F : Type 0} where
  -- The key's replicas ask with one rate and one burst.
  abbrev pub AreRated : Bytes → F → ℤ → List (Attempt F) → Type 0
  AreRated key rate burst [] = Unit
  AreRated key rate burst (a ∷ rest) =
      (bytes_eq a.key key ≡ true → (a.rate ≡ rate) × (a.burst ≡ burst))
      × AreRated key rate burst rest

  -- The backend's clock does not go back.
  abbrev pub Ordered : ℤ → List (Attempt F) → Type 0
  Ordered t [] = Unit
  Ordered t (a ∷ rest) = (t ≤ℤ a.at) × Ordered a.at rest

  abbrev pub end_of : ℤ → List (Attempt F) → ℤ
  end_of t [] = t
  end_of t (a ∷ rest) = end_of a.at rest

module _ {F : Type 0} (b : Backend F) where
  pub record Fleet : Type 0 where
    pub gates : List Gate
    pub ledger : b.Ledger

  abbrev pub outside : b.Ledger → Attempt F → Outside F
  outside l a = record {
    now = a.now;
    answer = λ r. (b.ask l a.at r).1;
    owner_done = a.owner_done;
    caller_error = a.caller_error;
    failed_at = a.failed_at;
  }

  abbrev pub gate_of : Fleet → Attempt F → Gate
  gate_of f a =
      get_or f.gates a.replica
        (record { breaker = Breaker.fresh; takes = 0; refused = 0; failures = 0 })

  -- Whether the replica lets the attempt through.
  abbrev pub proceeds : Spec → Fleet → Attempt F → Bool
  proceeds s f a = (take s (gate_of f a) a.key a.rate a.burst (outside f.ledger a)).1.proceed

  -- The backend is asked unless the replica's breaker forbids it.
  abbrev pub attempt : Spec → Fleet → Attempt F → Fleet
  attempt s f a =
      let g = gate_of f a in
      record {
        gates = set f.gates a.replica (take s g a.key a.rate a.burst (outside f.ledger a)).0;
        ledger =
            if (Breaker.allow g.breaker a.now).1
            then (b.ask f.ledger a.at (request s a.key a.rate a.burst)).0
            else f.ledger;
      }

  -- How many attempts for a key the fleet lets through.
  abbrev pub passed : Spec → Bytes → Fleet → List (Attempt F) → ℕ
  passed s key f [] = 0
  passed s key f (a ∷ rest) =
      (if bytes_eq a.key key && proceeds s f a then 1 else 0) + passed s key (attempt s f a) rest
