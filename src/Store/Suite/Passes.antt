-- ===== src/Store/Suite/Passes.antt =====
-- Which stores pass the checks of store/storetest/storetest.go.
use pace.Prelude.{
  ℕ, true, Option, none, some, List, [], ◌∷◌, ◌++◌, ◌≡◌, ◌≢◌, refl, ap, ◌∙◌, if◌then◌else◌,
}
use pace.Prelude.Int.{ℤ}
use pace.Prelude.Bytes.{Bytes, text, bytes_eq}
use pace.Float.{Float64}
use pace.Store.{State, KeyState, Loaded, failed, found, missing}
use pace.Store.Laws.{last_of}
use pace.Store.Suite.{
  Subject, Fault, then_saved, saving, loading, then_loaded, expect, alice, bob, at, state, number,
  and_a_half, nobody, miss_is_not_an_error, round_trips_state, last_used_keeps_nanoseconds,
  save_overwrites, keys_are_independent, honours_context_cancellation, refused_save, refused_load,
  rows, batch, then_batch, batch_with, save_batch_matches_save, Work, saves, loads, name,
  concurrent_use_is_safe, suite, row, then_row,
}

-- A store whose live calls do not fail, that finds what is saved by its key alone, and that returns an
-- error from a call whose context is over.
pub record Honours {fl : Float64} (s : Subject fl) : Type 0 where
  pub load-new : (k : Bytes) → s.load s.new_store none k ≡ missing
  pub save-live : (c : s.Contents) (k : Bytes) (st : State fl.F) → (s.save c none k st).1 ≡ none
  pub load-save :
      (c : s.Contents) (k j : Bytes) (st : State fl.F)
      → s.load (s.save c none k st).0 none j ≡ (if bytes_eq k j then found st else s.load c none j)
  pub load-live : (c : s.Contents) (k : Bytes) (e : ℤ) → s.load c none k ≢ failed e
  pub save-over :
      (c : s.Contents) (k : Bytes) (st : State fl.F) (e : ℤ) → (s.save c (some e) k st).1 ≢ none
  pub load-over : (c : s.Contents) (k : Bytes) (e : ℤ) → s.load c (some e) k ≡ failed e
  pub load-save_batch :
      (f : s.Contents → Option ℤ → List (KeyState fl.F) → s.Contents × Option ℤ)
      → s.save_batch ≡ some f
      → (c : s.Contents) (us : List (KeyState fl.F)) (k : Bytes)
      → (s.load (f c none us).0 none k ≡ last_of k (s.load c none k) us) × ((f c none us).1 ≡ none)

-- The token counts that the suite saves are equal to themselves.
pub record Comparable (fl : Float64) : Type 0 where
  pub whole : (n : ℕ) → fl.eq (number fl n) (number fl n) ≡ true
  pub halves : (n : ℕ) → fl.eq (and_a_half fl n) (and_a_half fl n) ≡ true

module _ {fl : Float64} (s : Subject fl) (h : Honours s) where
  open fl use {F, eq}

  saved :
      (c : s.Contents) (k : Bytes) (st : State F) (f : s.Contents → List Fault)
      → saving s c k st f ≡ f (s.save c none k st).0
  unfolding saving
  saved c k st f = ap (λ e. then_saved s f ((s.save c none k st).0, e)) (h.save-live c k st)

  read :
      (c : s.Contents) (k : Bytes) (st : State F) (f : Option (State F) → List Fault)
      → s.load c none k ≡ found st
      → loading s c k f ≡ f (some st)
  unfolding loading
  read c k st f e = ap (then_loaded s f) e

  never_fails :
      (c : s.Contents) (k : Bytes) (f : Option (State F) → List Fault)
      → ((o : Option (State F)) → f o ≡ [])
      → loading s c k f ≡ []
  unfolding loading
  never_fails c k f q = by_answer (s.load c none k) refl
    where
      by_answer : (l : Loaded F) → s.load c none k ≡ l → then_loaded s f l ≡ []
      by_answer missing e = q none
      by_answer (found st) e = q (some st)
      by_answer (failed x) e = elim (h.load-live c k x e) [ ]

  finds :
      (c : s.Contents) (k : Bytes) (st : State F)
      → bytes_eq k k ≡ true
      → s.load (s.save c none k st).0 none k ≡ found st
  finds c k st r = h.load-save c k k st ∙ rw r refl

  kept :
      (c : s.Contents) (k : Bytes) (st : State F) (f : State F → List Fault)
      → bytes_eq k k ≡ true
      → f st ≡ []
      → loading s (s.save c none k st).0 k (expect s k f) ≡ []
  kept c k st f r e = read (s.save c none k st).0 k st (expect s k f) (finds c k st r) ∙ e

  passes_miss : miss_is_not_an_error s ≡ []
  unfolding miss_is_not_an_error loading
  passes_miss = ap (then_loaded s (nobody s)) (h.load-new (text "nobody"))

  module _ (cmp : Comparable fl) where
    passes_round_trip : round_trips_state s ≡ []
    unfolding round_trips_state bytes_eq
    passes_round_trip =
        saved s.new_store alice _ _ ∙ kept s.new_store alice _ _ refl (rw (cmp.halves 2) refl)

    passes_nanoseconds : last_used_keeps_nanoseconds s ≡ []
    unfolding last_used_keeps_nanoseconds bytes_eq
    passes_nanoseconds = saved s.new_store alice _ _ ∙ kept s.new_store alice _ _ refl refl

    passes_overwrites : save_overwrites s ≡ []
    unfolding save_overwrites bytes_eq
    passes_overwrites =
        saved s.new_store alice _ _
        ∙ saved _ alice _ _
        ∙ kept _ alice _ _ refl (rw (cmp.whole 1) refl)

    passes_independent : keys_are_independent s ≡ []
    unfolding keys_are_independent bytes_eq
    passes_independent =
        saved s.new_store alice _ _
        ∙ saved _ bob _ _
        ∙ read _ alice (state fl (number fl 1) (at 0)) _
            (h.load-save _ bob alice _ ∙ finds s.new_store alice _ refl)
        ∙ rw (cmp.whole 1) refl

  passes_concurrent : (order : List Work) (c : s.Contents) → concurrent_use_is_safe s order c ≡ []
  unfolding concurrent_use_is_safe
  passes_concurrent [] c = refl
  passes_concurrent (saves i ∷ ws) c = saved c (name i) _ _ ∙ passes_concurrent ws _
  passes_concurrent (loads i ∷ ws) c =
      never_fails c (name i) (λ _. concurrent_use_is_safe s ws c) (λ _. passes_concurrent ws c)

  passes_context : (canceled now : ℤ) → honours_context_cancellation s canceled now ≡ []
  unfolding honours_context_cancellation
  passes_context canceled now =
      let st = state fl (number fl 1) now in
      let written = s.save s.new_store (some canceled) alice st in
      let told = by_error written.0 written.1 (h.save-over s.new_store alice st canceled) in
      ap (λ x. x ++ refused_load s (s.load written.0 (some canceled) alice)) told
      ∙ ap (refused_load s) (h.load-over written.0 alice canceled)
    where
      by_error : (c : s.Contents) (o : Option ℤ) → o ≢ none → refused_save s (c, o) ≡ []
      by_error c none q = elim (q refl) [ ]
      by_error c (some e) q = refl

  -- A row of the batch.
  abbrev row_of : Bytes → ℕ → KeyState F
  row_of k n = record { key = k; state = state fl (and_a_half fl n) (at 424_242_424) }

  module _ (cmp : Comparable fl) where
    wrote :
        (f : s.Contents → Option ℤ → List (KeyState F) → s.Contents × Option ℤ)
        → ((k : Bytes)
            → (s.load (f s.new_store none (batch fl)).0 none k
                ≡ last_of k (s.load s.new_store none k) (batch fl))
              × ((f s.new_store none (batch fl)).1 ≡ none))
        → batch_with s (some f) ≡ []
    unfolding rows bytes_eq
    wrote f q =
        let c = (f s.new_store none (batch fl)).0 in
        ap (λ e. then_batch s (c, e)) (q alice).1
        ∙ ap (λ l. then_row s (row_of alice 1) (then_row s (row_of bob 2) [] (s.load c none bob)) l)
            (q alice).0
        ∙ ap (λ l. row s (row_of alice 1) (row_of alice 1).state ++ then_row s (row_of bob 2) [] l)
            (q bob).0
        ∙ rw (cmp.halves 1, cmp.halves 2) refl

    passes_batch : save_batch_matches_save s ≡ []
    unfolding save_batch_matches_save
    passes_batch = by_batch s.save_batch refl
      where
        by_batch :
            (o : Option (s.Contents → Option ℤ → List (KeyState F) → s.Contents × Option ℤ))
            → s.save_batch ≡ o
            → batch_with s o ≡ []
        by_batch none e = refl
        by_batch (some f) e = wrote f (h.load-save_batch f e s.new_store (batch fl))

    -- Such a store passes every check of the suite, with its concurrent calls served in any order; one
    -- without SaveBatch too.
    pub suite_passes : (canceled now : ℤ) (order : List Work) → suite s canceled now order ≡ []
    unfolding suite
    suite_passes canceled now order =
        rw
          (
            passes_miss,
            passes_round_trip cmp,
            passes_nanoseconds cmp,
            passes_overwrites cmp,
            passes_independent cmp,
            passes_context canceled now,
            passes_batch,
            passes_concurrent order s.new_store,
          )
          refl
