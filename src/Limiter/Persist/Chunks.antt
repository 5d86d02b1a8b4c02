-- ===== src/Limiter/Persist/Chunks.antt =====
-- The chunks of `flush` in limiter/persist.go.
use pace.Prelude.{
  ℕ, zero, suc, ◌-◌, ◌≤◌, ◌<◌, ◌≡◌, refl, ap, sym, subst, ◌∙◌, true, none, List, [], ◌∷◌, ◌++◌,
  arith, length, take, drop, map, All,
}
use pace.Prelude.Bytes.{Bytes}
use pace.Prelude.Assoc.{Assoc}
use pace.Registry.{Snapshot}
use pace.Store
use pace.Store.{State, KeyState, StoreApi, memory, insert_all, save_batch}
use pace.Store.Laws.{last_of, load-insert_all, insert_all-append}
use pace.Limiter.Persist.{Persistence, persists, chunk, chunks, key_state, flush, flush_batches}

module _ {Tok : Type 0} where
  abbrev pub concat : List (List (KeyState Tok)) → List (KeyState Tok)
  concat [] = []
  concat (b ∷ bs) = b ++ concat bs

  take-drop : (n : ℕ) (us : List (KeyState Tok)) → take n us ++ drop n us ≡ us
  take-drop zero us = refl
  take-drop (suc n) [] = refl
  take-drop (suc n) (u ∷ us) = ap (λ xs. u ∷ xs) (take-drop n us)

  length-take : (n : ℕ) (us : List (KeyState Tok)) → length (take n us) ≤ n
  length-take zero us = omega arith
  length-take (suc n) [] = omega arith
  length-take (suc n) (u ∷ us) = omega (arith, length-take n us)

  length-drop : (n : ℕ) (us : List (KeyState Tok)) → length (drop n us) ≤ length us - n
  length-drop zero us = omega arith
  length-drop (suc n) [] = omega arith
  length-drop (suc n) (u ∷ us) = omega (arith, length-drop n us)

  -- As many rounds of the loop as there are states cut them all into batches, in their order and none
  -- twice, and no batch is empty or above 512.
  pub concat-chunks :
      (fuel : ℕ) (us : List (KeyState Tok))
      → length us ≤ fuel
      → (concat (chunks fuel us) ≡ us)
        × All (λ b. (0 < length b) × (length b ≤ chunk)) (chunks fuel us)
  concat-chunks zero [] h = (refl, tt)
  concat-chunks zero (u ∷ us) h = elim h [ ]
  concat-chunks (suc fuel) [] h = (refl, tt)
  concat-chunks (suc fuel) (u ∷ us) h =
      let left = length-drop chunk (u ∷ us) in
      let rest = concat-chunks fuel (drop chunk (u ∷ us)) (omega (arith, left)) in
      (
        ap (λ xs. take chunk (u ∷ us) ++ xs) rest.0 ∙ take-drop chunk (u ∷ us),
        ((omega arith, length-take chunk (u ∷ us)), rest.1),
      )

  flush_batches-memory :
      (m : Assoc (State Tok)) (bs : List (List (KeyState Tok)))
      → flush_batches memory (λ c us. save_batch c none us) m bs ≡ (insert_all m (concat bs), [])
  unfolding save_batch
  flush_batches-memory m [] = refl
  flush_batches-memory m (b ∷ bs) =
      flush_batches-memory (insert_all m b) bs
      ∙ ap (λ c. (c, [])) (sym (insert_all-append m b (concat bs)))

  -- A flush of any number of keys into the store in memory warns of nothing, and afterwards each key
  -- loads the last state that was flushed for it, or what it had before.
  pub load-flush :
      (p : Persistence) (m : Assoc (State Tok)) (snaps : List (Snapshot Tok)) (k : Bytes)
      → persists p ≡ true
      → (Store.load (flush memory p m snaps).0 none k
          ≡ last_of k (Store.load m none k) (map (λ s. key_state s) snaps))
        × ((flush memory p m snaps).1 ≡ [])
  unfolding flush
  load-flush p m [] k h = (refl, refl)
  load-flush p m (s ∷ ss) k h =
      let us = map (λ x. key_state x) (s ∷ ss) in
      let all = concat-chunks (length us) us (omega arith) in
      let out : flush_batches memory (λ c vs. save_batch c none vs) m (chunks (length us) us)
          ≡ (insert_all m us, []) =
        flush_batches-memory m (chunks (length us) us) ∙ ap (λ vs. (insert_all m vs, [])) all.0 in
      rw h (
        subst (λ c. (Store.load c.0 none k ≡ last_of k (Store.load m none k) us) × (c.1 ≡ []))
          (sym out) (load-insert_all m us k, refl))
