-- ===== src/Store.antt =====
-- store/store.go and store/memory/memory.go: saved states, and the store that keeps them in memory.
pub mod Laws
pub mod File
pub mod Suite
use pace.Prelude.{ℕ, Bool, Option, none, some, List, [], ◌∷◌, length}
use pace.Prelude.Int.{ℤ}
use pace.Prelude.Bytes.{Bytes}
use pace.Prelude.Assoc
use pace.Prelude.Assoc.{Assoc, insert}

pub record State (Tok : Type 0) : Type 0 where
  pub tokens : Tok
  pub last_used : ℤ

pub record KeyState (Tok : Type 0) : Type 0 where
  pub key : Bytes
  pub state : State Tok

-- What Load answers: an error, or the state of a key if it has one.
pub data Loaded (Tok : Type 0) : Type 0 where
  failed : ℤ → Loaded Tok
  found : State Tok → Loaded Tok
  missing : Loaded Tok

-- A Store of the program's user, and SaveBatch if it is a BatchStore too. A call that writes returns
-- the new contents and its error.
pub record StoreApi (Tok : Type 0) : Type 1 where
  pub Contents : Type 0
  pub save : Contents → Bytes → State Tok → Contents × Option ℤ
  pub load : Contents → Bytes → Loaded Tok
  pub save_batch : Option (Contents → List (KeyState Tok) → Contents × Option ℤ)

-- store/memory. `canceled` is ctx.Err().
module _ {Tok : Type 0} where
  unfoldable pub save :
      Assoc (State Tok) → Option ℤ → Bytes → State Tok → Assoc (State Tok) × Option ℤ
  save m (some e) key st = (m, some e)
  save m none key st = (insert key st m, none)

  abbrev pub insert_all : Assoc (State Tok) → List (KeyState Tok) → Assoc (State Tok)
  insert_all m [] = m
  insert_all m (u ∷ us) = insert_all (insert u.key u.state m) us

  unfoldable pub save_batch :
      Assoc (State Tok) → Option ℤ → List (KeyState Tok) → Assoc (State Tok) × Option ℤ
  save_batch m (some e) states = (m, some e)
  save_batch m none states = (insert_all m states, none)

  abbrev loaded : Option (State Tok) → Loaded Tok
  loaded none = missing
  loaded (some st) = found st

  unfoldable pub load : Assoc (State Tok) → Option ℤ → Bytes → Loaded Tok
  load m (some e) key = failed e
  load m none key = loaded (Assoc.lookup key m)

  unfoldable pub len : Assoc (State Tok) → ℕ
  len m = length m

  -- store/memory with no context cancelled.
  abbrev pub memory : StoreApi Tok
  memory = record {
    Contents = Assoc (State Tok);
    save = λ m key st. save m none key st;
    load = λ m key. load m none key;
    save_batch = some (λ m states. save_batch m none states);
  }
