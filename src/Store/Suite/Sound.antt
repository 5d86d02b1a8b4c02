-- ===== src/Store/Suite/Sound.antt =====
-- What store/storetest/storetest.go shows of a store that passes.
use pace.Prelude.{◌≡◌, ◌≢◌, true, none, some}
use pace.Prelude.Int.{ℤ}
use pace.Prelude.Bytes.{Bytes, text}
use pace.Float.{Float64}
use pace.Store.{State, failed, found, missing}
use pace.Store.Suite.{Subject, alice, bob, at, state, number, and_a_half}

module _ {fl : Float64} (s : Subject fl) where
  open fl use {F, eq}
  open s use {Contents, new_store}

  -- What Save leaves of the contents, if it returns no error.
  abbrev pub Saves : Contents → Bytes → State F → (Contents → Type 0) → Type 0
  Saves c key st P = ((s.save c none key st).1 ≡ none) × P (s.save c none key st).0

  abbrev pub Loads : Contents → Bytes → (State F → Type 0) → Type 0
  Loads c key P = (st : State F) × (s.load c none key ≡ found st) × P st

  -- What is shown of a store, each by a new one.
  pub record Keeps (canceled now : ℤ) : Type 0 where
    pub misses : s.load new_store none (text "nobody") ≡ missing
    pub restores : Saves new_store alice (state fl (and_a_half fl 2) (at 123_456_789)) (λ c.
        Loads c alice
          (λ st. (eq st.tokens (and_a_half fl 2) ≡ true) × (st.last_used ≡ at 123_456_789)))
    pub nanoseconds :
        Saves new_store alice
          (state fl (number fl 1) (at 987_654_321))
          (λ c. Loads c alice (λ st. st.last_used ≡ at 987_654_321))
    pub overwrites : Saves new_store alice (state fl (number fl 5) (at 0)) (λ c.
        Saves c alice
          (state fl (number fl 1) (at 1_000_000_000))
          (λ d. Loads d alice (λ st. eq st.tokens (number fl 1) ≡ true)))
    pub separates : Saves new_store alice (state fl (number fl 1) (at 0)) (λ c.
        Saves c bob
          (state fl (number fl 9) (at 0))
          (λ d. Loads d alice (λ st. eq st.tokens (number fl 1) ≡ true)))
    pub save_canceled :
        (s.save new_store (some canceled) alice (state fl (number fl 1) now)).1 ≢ none
    pub load_canceled :
        (e : ℤ) × (s.load
            (s.save new_store (some canceled) alice (state fl (number fl 1) now)).0
            (some canceled)
            alice
          ≡ failed e)
