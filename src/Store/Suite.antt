-- ===== src/Store/Suite.antt =====
-- store/storetest/storetest.go: the checks that every store is to pass, as functions of a store. A
-- check returns what it reports; Fatal ends it at once.
pub mod Passes
pub mod Sound
pub mod Subjects
mod Tests
use pace.Prelude.{
  ℕ, ◌+◌, ◌%◌, Bool, true, false, not, ◌&&◌, Option, none, some, List, [], ◌∷◌, ◌++◌, if◌then◌else◌,
}
use pace.Prelude.Int.{ℤ, pos, eq_ℤ}
use pace.Prelude.Bytes.{Bytes, text}
use pace.Float.{Float64}
use pace.Store.{State, KeyState, Loaded, failed, found, missing}

-- A Store under test: its contents and its calls, by ctx.Err().
pub record Subject (fl : Float64) : Type 1 where
  pub Contents : Type 0
  pub new_store : Contents
  pub save : Contents → Option ℤ → Bytes → State fl.F → Contents × Option ℤ
  pub load : Contents → Option ℤ → Bytes → Loaded fl.F
  pub save_batch : Option (Contents → Option ℤ → List (KeyState fl.F) → Contents × Option ℤ)

pub data Fault : Type 0 where
  save_failed load_failed batch_failed : ℤ → Fault
  not_found wrong_state : Bytes → Fault
  found_nobody wrong_tokens wrong_time save_ignores_context load_ignores_context : Fault

abbrev pub alice : Bytes
alice = text "alice"

abbrev pub bob : Bytes
bob = text "bob"

-- time.Unix(1700000000, ns)
abbrev pub at : ℕ → ℤ
at ns = pos (1_700_000_000_000_000_000 + ns)

-- A goroutine's Save or Load.
pub data Work : Type 0 where
  saves loads : ℕ → Work

abbrev pub name : ℕ → Bytes
name i = (97 + i % 26) ∷ []

module _ (fl : Float64) where
  open fl use {F, of_int, div}

  abbrev pub state : F → ℤ → State F
  state tokens last_used = record { tokens = tokens; last_used = last_used }

  abbrev pub number : ℕ → F
  number n = of_int (pos n)

  -- n + 0.5
  abbrev pub and_a_half : ℕ → F
  and_a_half n = div (number (n + n + 1)) (number 2)

  abbrev pub batch : List (KeyState F)
  batch =
      record { key = alice; state = state (and_a_half 1) (at 424_242_424) }
      ∷ record { key = bob; state = state (and_a_half 2) (at 424_242_424) }
      ∷ []

module _ {fl : Float64} (s : Subject fl) where
  open fl use {F, eq}
  open s use {Contents, new_store}

  -- save and load of the suite, and what the check does after them.
  abbrev pub then_saved : (Contents → List Fault) → Contents × Option ℤ → List Fault
  then_saved f (c, none) = f c
  then_saved f (c, some e) = save_failed e ∷ []

  unfoldable pub saving : Contents → Bytes → State F → (Contents → List Fault) → List Fault
  saving c key st f = then_saved f (s.save c none key st)

  abbrev pub then_loaded : (Option (State F) → List Fault) → Loaded F → List Fault
  then_loaded f (failed e) = load_failed e ∷ []
  then_loaded f missing = f none
  then_loaded f (found st) = f (some st)

  unfoldable pub loading : Contents → Bytes → (Option (State F) → List Fault) → List Fault
  loading c key f = then_loaded f (s.load c none key)

  -- A key that was saved is to be found.
  abbrev pub expect : Bytes → (State F → List Fault) → Option (State F) → List Fault
  expect key f none = not_found key ∷ []
  expect key f (some st) = f st

  abbrev pub same_tokens : F → State F → List Fault
  same_tokens want got = if eq got.tokens want then [] else wrong_tokens ∷ []

  abbrev pub same_time : ℤ → State F → List Fault
  same_time want got = if eq_ℤ got.last_used want then [] else wrong_time ∷ []

  abbrev pub nobody : Option (State F) → List Fault
  nobody none = []
  nobody (some st) = found_nobody ∷ []

  unfoldable pub miss_is_not_an_error : List Fault
  miss_is_not_an_error = loading new_store (text "nobody") nobody

  unfoldable pub round_trips_state : List Fault
  round_trips_state = saving new_store alice (state fl (and_a_half fl 2) (at 123_456_789)) (λ c.
      loading c alice
        (expect alice (λ got. same_tokens (and_a_half fl 2) got ++ same_time (at 123_456_789) got)))

  unfoldable pub last_used_keeps_nanoseconds : List Fault
  last_used_keeps_nanoseconds =
      saving new_store alice (state fl (number fl 1) (at 987_654_321))
        (λ c. loading c alice (expect alice (same_time (at 987_654_321))))

  unfoldable pub save_overwrites : List Fault
  save_overwrites = saving new_store alice (state fl (number fl 5) (at 0)) (λ c.
      saving c alice (state fl (number fl 1) (at 1_000_000_000))
        (λ d. loading d alice (expect alice (same_tokens (number fl 1)))))

  unfoldable pub keys_are_independent : List Fault
  keys_are_independent = saving new_store alice (state fl (number fl 1) (at 0)) (λ c.
      saving c bob (state fl (number fl 9) (at 0))
        (λ d. loading d alice (expect alice (same_tokens (number fl 1)))))

  abbrev pub refused_save : Contents × Option ℤ → List Fault
  refused_save (c, none) = save_ignores_context ∷ []
  refused_save (c, some e) = []

  abbrev pub refused_load : Loaded F → List Fault
  refused_load (failed e) = []
  refused_load _ = load_ignores_context ∷ []

  -- `canceled` is the error of a cancelled context, `now` is time.Now().
  unfoldable pub honours_context_cancellation : ℤ → ℤ → List Fault
  honours_context_cancellation canceled now =
      let written = s.save new_store (some canceled) alice (state fl (number fl 1) now) in
      refused_save written ++ refused_load (s.load written.0 (some canceled) alice)

  abbrev pub row : KeyState F → State F → List Fault
  row u got =
      if eq got.tokens u.state.tokens && eq_ℤ got.last_used u.state.last_used
      then []
      else wrong_state u.key ∷ []

  -- A Fatal of load ends the loop.
  abbrev pub then_row : KeyState F → List Fault → Loaded F → List Fault
  then_row u rest (failed e) = load_failed e ∷ []
  then_row u rest missing = not_found u.key ∷ rest
  then_row u rest (found st) = row u st ++ rest

  unfoldable pub rows : Contents → List (KeyState F) → List Fault
  rows c [] = []
  rows c (u ∷ us) = then_row u (rows c us) (s.load c none u.key)

  abbrev pub then_batch : Contents × Option ℤ → List Fault
  then_batch (c, none) = rows c (batch fl)
  then_batch (c, some e) = batch_failed e ∷ []

  -- A store without SaveBatch skips this one.
  abbrev pub batch_with :
      Option (Contents → Option ℤ → List (KeyState F) → Contents × Option ℤ) → List Fault
  batch_with none = []
  batch_with (some f) = then_batch (f new_store none (batch fl))

  unfoldable pub save_batch_matches_save : List Fault
  save_batch_matches_save = batch_with s.save_batch

  -- The goroutines' calls in the order in which the store serves them; the first error is fatal.
  unfoldable pub concurrent_use_is_safe : List Work → Contents → List Fault
  concurrent_use_is_safe [] c = []
  concurrent_use_is_safe (saves i ∷ ws) c =
      saving c (name i) (state fl (number fl i) (at 0)) (concurrent_use_is_safe ws)
  concurrent_use_is_safe (loads i ∷ ws) c = loading c (name i) (λ _. concurrent_use_is_safe ws c)

  unfoldable pub suite : ℤ → ℤ → List Work → List Fault
  suite canceled now order =
      miss_is_not_an_error
      ++ round_trips_state
      ++ last_used_keeps_nanoseconds
      ++ save_overwrites
      ++ keys_are_independent
      ++ honours_context_cancellation canceled now
      ++ save_batch_matches_save
      ++ concurrent_use_is_safe order new_store
