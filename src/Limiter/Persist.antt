-- ===== src/Limiter/Persist.antt =====
-- limiter/persist.go: what the limiter writes to its store and reads from it.
pub mod Chunks
use pace.Prelude.{
  ℕ, zero, suc, Bool, true, false, not, ◌&&◌, Option, none, some, List, [], ◌∷◌, ◌++◌, length, take,
  drop, map, if◌then◌else◌,
}
use pace.Prelude.Int.{ℤ}
use pace.Prelude.Bytes.{Bytes}
use pace.Registry.{Snapshot}
use pace.Store.{State, KeyState, Loaded, failed, found, missing, StoreApi}

-- `persistence` without its store's contents and its settings of time and log.
pub record Persistence : Type 0 where
  pub has_store : Bool
  pub shadowed : Bool

-- The warnings that are logged.
pub data Warning : Type 0 where
  load_failed : Bytes → Warning
  batch_failed : ℕ → Warning
  save_failed : Bytes → Warning

unfoldable pub persists : Persistence → Bool
persists p = p.has_store && not p.shadowed

abbrev pub chunk : ℕ
chunk = 512

module _ {Tok : Type 0} where
  abbrev pub key_state : Snapshot Tok → KeyState Tok
  key_state s = record {
    key = s.key;
    state = record { tokens = s.tokens; last_used = s.last_used };
  }

  -- snaps[start:min(start+chunk, len(snaps))], for start from 0 in steps of chunk
  abbrev pub chunks : ℕ → List (KeyState Tok) → List (List (KeyState Tok))
  chunks zero us = []
  chunks (suc fuel) [] = []
  chunks (suc fuel) (u ∷ us) = take chunk (u ∷ us) ∷ chunks fuel (drop chunk (u ∷ us))

  module _ (api : StoreApi Tok) where
    open api use {Contents}

    abbrev loaded : Bytes → Loaded Tok → Option (Snapshot Tok) × List Warning
    loaded key (failed e) = (none, load_failed key ∷ [])
    loaded key missing = (none, [])
    loaded key (found st) =
        (some (record { key = key; tokens = st.tokens; last_used = st.last_used }), [])

    unfoldable pub load : Contents → Bytes → Option (Snapshot Tok) × List Warning
    load c key = loaded key (api.load c key)

    unfoldable pub save : Contents → Snapshot Tok → Contents × Option ℤ
    save c s = api.save c s.key (record { tokens = s.tokens; last_used = s.last_used })

    abbrev warn_if : Option ℤ → Warning → List Warning
    warn_if none w = []
    warn_if (some e) w = w ∷ []

    abbrev pub flush_batches :
        (Contents → List (KeyState Tok) → Contents × Option ℤ)
        → Contents
        → List (List (KeyState Tok))
        → Contents × List Warning
    flush_batches f c [] = (c, [])
    flush_batches f c (b ∷ bs) =
        let (c', e) = f c b in
        let (c'', ws) = flush_batches f c' bs in (c'', warn_if e (batch_failed (length b)) ++ ws)

    abbrev pub flush_each : Contents → List (KeyState Tok) → Contents × List Warning
    flush_each c [] = (c, [])
    flush_each c (u ∷ us) =
        let (c', e) = api.save c u.key u.state in
        let (c'', ws) = flush_each c' us in (c'', warn_if e (save_failed u.key) ++ ws)

    abbrev pub flush_to :
        Option (Contents → List (KeyState Tok) → Contents × Option ℤ)
        → Contents
        → List (KeyState Tok)
        → Contents × List Warning
    flush_to (some f) c us = flush_batches f c (chunks (length us) us)
    flush_to none c us = flush_each c us

    unfoldable pub flush : Persistence → Contents → List (Snapshot Tok) → Contents × List Warning
    unfolding persists
    flush p c [] = (c, [])
    flush p c (s ∷ ss) =
        if persists p then flush_to api.save_batch c (map (λ x. key_state x) (s ∷ ss)) else (c, [])
