-- ===== src/Store/File/Tests.antt =====
-- A store in a file whose text has three numbers for each key, at fixed inputs; only keys of one byte
-- are written.
use pace.Prelude.{ℕ, ◌≡◌, refl, ap, none, some, ◌⊎◌, inl, inr, [], ◌∷◌, true, if◌then◌else◌}
use pace.Prelude.Int.{ℤ, pos, negsuc}
use pace.Prelude.Bytes.{Bytes, text, bytes_eq}
use pace.Prelude.Assoc
use pace.Prelude.Assoc.{Assoc}
use pace.Store.{State, KeyState, found, missing}
use pace.Store.Laws.{last_of}
use pace.Store.File.{FileLib, FileStore, open_file_store, load, save, save_all}
use pace.Store.File.Reopen.{FileLaws, load-reopened}

abbrev code_entry : Bytes → ℕ → ℤ → ℤ ⊎ Bytes → ℤ ⊎ Bytes
code_entry (c ∷ []) n (pos t) (inr b) = inr (c ∷ n ∷ t ∷ b)
code_entry (c ∷ []) n (pos t) (inl e) = inl e
code_entry (c ∷ []) n (negsuc t) x = inl (pos 1)
code_entry (c ∷ d ∷ k) n t x = inl (pos 1)
code_entry [] n t x = inl (pos 1)

abbrev code : Assoc (State ℕ) → ℤ ⊎ Bytes
code [] = inr []
code ((k, st) ∷ m) = code_entry k st.tokens st.last_used (code m)

abbrev read : Bytes → Assoc (State ℕ)
read (c ∷ n ∷ t ∷ b) = (c ∷ [], record { tokens = n; last_used = pos t }) ∷ read b
read (c ∷ n ∷ []) = []
read (c ∷ []) = []
read [] = []

read-code_entry :
    (k : Bytes) (st : State ℕ) (t : ℤ) (x : ℤ ⊎ Bytes) (m : Assoc (State ℕ)) (b : Bytes)
    → st.last_used ≡ t
    → ((c : Bytes) → x ≡ inr c → read c ≡ m)
    → code_entry k st.tokens t x ≡ inr b
    → read b ≡ (k, st) ∷ m
read-code_entry [] st t x m b l h e = cc
read-code_entry (c ∷ d ∷ k) st t x m b l h e = cc
read-code_entry (c ∷ []) st (negsuc t) x m b l h e = cc
read-code_entry (c ∷ []) st (pos t) (inl f) m b l h e = cc
read-code_entry (c ∷ []) st (pos t) (inr a) m b l h e =
    let q : b ≡ c ∷ st.tokens ∷ t ∷ a = cc in rw (q, h a refl, ← l) refl

read-code : (m : Assoc (State ℕ)) (b : Bytes) → code m ≡ inr b → read b ≡ m
read-code [] b e = let q : b ≡ [] = cc in rw q refl
read-code ((k, st) ∷ m) b e = read-code_entry k st st.last_used (code m) m b refl (read-code m) e

abbrev io : FileLib ℕ
io = record {
  marshal = code;
  unmarshal = λ b m. (read b, none);
  write_file = λ f b. (some b, none);
}

abbrev laws : FileLaws io
laws = record {
  is_utf8 = λ k. true;
  unmarshal-marshal = λ m b t e. (λ k. ap (Assoc.lookup k) (read-code m b e), refl);
  file-write_file = λ f b e. refl;
}

abbrev state_of : ℕ → KeyState ℕ
state_of n = record { key = text "k"; state = record { tokens = n; last_used = pos 5 } }

abbrev new_store : FileStore io
new_store = record { all = []; file = none }

load-reopened_example :
    let file =
      (save io (save_all io new_store (state_of 1 ∷ [])) (text "k") (state_of 2).state).0.file in
    (again : FileStore io) × (open_file_store io none file ≡ inr (again, none))
    × ((k : Bytes)
        → load io again k ≡ (
            if bytes_eq (text "k") k
            then found (state_of 2).state
            else last_of k missing (state_of 1 ∷ [])))
unfolding save_all open_file_store Assoc.insert bytes_eq
load-reopened_example =
    load-reopened laws new_store (state_of 1 ∷ []) (state_of 2) refl (refl, tt) refl refl
