-- ===== src/Store/File.antt =====
-- examples/store/main.go: a store that keeps every key's state in one JSON file. encoding/json and
-- the file system are parameters.
pub mod Reopen
mod Tests
use pace.Prelude.{Bool, ◌⊎◌, inl, inr, Option, none, some, List, [], ◌∷◌}
use pace.Prelude.Int.{ℤ}
use pace.Prelude.Bytes.{Bytes}
use pace.Prelude.Assoc
use pace.Prelude.Assoc.{Assoc, insert}
use pace.Store.{State, KeyState, Loaded, found, missing}

-- json.Marshal of a map of states; json.Unmarshal into such a map, with its error; os.WriteFile over
-- what the file holds, `none` being no file, with its error.
pub record FileLib (F : Type 0) : Type 0 where
  pub marshal : Assoc (State F) → ℤ ⊎ Bytes
  pub unmarshal : Bytes → Assoc (State F) → Assoc (State F) × Option ℤ
  pub write_file : Option Bytes → Bytes → Option Bytes × Option ℤ

module _ {F : Type 0} (io : FileLib F) where
  -- With what the file holds.
  pub record FileStore : Type 0 where
    pub all : Assoc (State F)
    pub file : Option Bytes

  abbrev pub read_into : Bytes → Assoc (State F) × Option ℤ → ℤ ⊎ (FileStore × Option ℤ)
  read_into b (m, error) = inr (record { all = m; file = some b }, error)

  -- openFileStore, `failed` being an error of os.ReadFile on a file that is there. The store is
  -- returned beside an error of json.Unmarshal.
  unfoldable pub open_file_store : Option ℤ → Option Bytes → ℤ ⊎ (FileStore × Option ℤ)
  open_file_store failed none = inr (record { all = []; file = none }, none)
  open_file_store (some e) (some b) = inl e
  open_file_store none (some b) = read_into b (io.unmarshal b [])

  abbrev pub loaded : Option (State F) → Loaded F
  loaded none = missing
  loaded (some st) = found st

  unfoldable pub load : FileStore → Bytes → Loaded F
  load s key = loaded (Assoc.lookup key s.all)

  abbrev pub written : FileStore → Option Bytes × Option ℤ → FileStore × Option ℤ
  written s (file, error) = (record s { file = file }, error)

  abbrev pub encoded : FileStore → ℤ ⊎ Bytes → FileStore × Option ℤ
  encoded s (inl e) = (s, some e)
  encoded s (inr b) = written s (io.write_file s.file b)

  unfoldable pub save : FileStore → Bytes → State F → FileStore × Option ℤ
  save s key st = let s' = record s { all = insert key st s.all } in encoded s' (io.marshal s'.all)

  unfoldable pub save_all : FileStore → List (KeyState F) → FileStore
  unfolding save
  save_all s [] = s
  save_all s (u ∷ us) = save_all (save s u.key u.state).0 us
