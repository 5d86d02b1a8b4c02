-- ===== src/Store/Laws.antt =====
-- What store/memory/memory.go gives back.
use pace.Prelude.{◌≡◌, refl, ap, ◌∙◌, Option, none, some, List, [], ◌∷◌, ◌++◌, arith, if◌then◌else◌}
use pace.Prelude.Int.{ℤ}
use pace.Prelude.Bytes.{Bytes, bytes_eq}
use pace.Prelude.Assoc.{Assoc, insert, lookup-insert}
use pace.Store.{State, KeyState, Loaded, found, save_batch, insert_all, load}

module _ {Tok : Type 0} where
  pub insert_all-append :
      (m : Assoc (State Tok)) (us vs : List (KeyState Tok))
      → insert_all m (us ++ vs) ≡ insert_all (insert_all m us) vs
  insert_all-append m [] vs = refl
  insert_all-append m (u ∷ us) vs = insert_all-append (insert u.key u.state m) us vs

  -- The last of a list's states for a key, or what it had before.
  abbrev pub last_of : Bytes → Loaded Tok → List (KeyState Tok) → Loaded Tok
  last_of k old [] = old
  last_of k old (u ∷ us) = last_of k (if bytes_eq u.key k then found u.state else old) us

  load-insert :
      (m : Assoc (State Tok)) (u : KeyState Tok) (k : Bytes)
      → load (insert u.key u.state m) none k
        ≡ (if bytes_eq u.key k then found u.state else load m none k)
  unfolding load
  load-insert m u k = ground (arith, lookup-insert u.key k u.state m)

  pub load-insert_all :
      (m : Assoc (State Tok)) (us : List (KeyState Tok)) (k : Bytes)
      → load (insert_all m us) none k ≡ last_of k (load m none k) us
  load-insert_all m [] k = refl
  load-insert_all m (u ∷ us) k =
      load-insert_all (insert u.key u.state m) us k
      ∙ ap (λ old. last_of k old us) (load-insert m u k)

  -- What a key is to load after a batch, by the error of the batch's context.
  abbrev pub loaded_after : Option ℤ → Bytes → Loaded Tok → List (KeyState Tok) → Loaded Tok
  loaded_after none k old us = last_of k old us
  loaded_after (some e) k old us = old

  -- After a batch every key loads the last state that the batch has for it, and a key outside the
  -- batch what it loaded before; a batch whose context is over leaves every key as it was. The error
  -- is that of the context.
  pub load-save_batch :
      (m : Assoc (State Tok)) (canceled : Option ℤ) (us : List (KeyState Tok)) (k : Bytes)
      → (load (save_batch m canceled us).0 none k ≡ loaded_after canceled k (load m none k) us)
        × ((save_batch m canceled us).1 ≡ canceled)
  unfolding save_batch
  load-save_batch m none us k = (load-insert_all m us k, refl)
  load-save_batch m (some e) us k = (refl, refl)
