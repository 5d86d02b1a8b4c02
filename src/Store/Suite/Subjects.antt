-- ===== src/Store/Suite/Subjects.antt =====
-- Stores of this repository under the checks of store/storetest/storetest.go: store/memory/memory.go
-- and the store in a file of examples/store/main.go.
use mathlib.Core.Option.{some-injective}
use pace.Prelude.{
  Option, none, some, List, [], ◌∷◌, ◌++◌, ◌≡◌, ◌≢◌, refl, sym, ap, subst, ◌∙◌, arith,
}
use pace.Prelude.Int.{ℤ}
use pace.Prelude.Bytes.{Bytes}
use pace.Prelude.Assoc
use pace.Prelude.Assoc.{Assoc, insert, lookup-insert}
use pace.Float.{Float64}
use pace.Store.{State, Loaded, failed, found, missing, save, save_batch, load}
use pace.Store.Laws.{last_of, load-save_batch}
use pace.Store.Suite.{
  Subject, Fault, refused_load, honours_context_cancellation, refused_save, load_ignores_context,
  alice, state, number,
}
use pace.Store.Suite.Passes.{Honours}

last-not_nil : (xs : List Fault) (f : Fault) → xs ++ f ∷ [] ≢ []
last-not_nil [] f h = cc
last-not_nil (x ∷ xs) f h = cc

module _ (fl : Float64) where
  open fl use {F}

  abbrev pub memory : Subject fl
  memory = record {
    Contents = Assoc (State F);
    new_store = [];
    save = save;
    load = load;
    save_batch = some save_batch;
  }

  -- fileStore. The contexts are not looked at; `write` is the error of encoding and writing the file.
  abbrev file_load : Option (State F) → Loaded F
  file_load none = missing
  file_load (some st) = found st

  unfoldable pub file_store : (Assoc (State F) → Option ℤ) → Subject fl
  file_store write = record {
    Contents = Assoc (State F);
    new_store = [];
    save = λ m ctx key st. (insert key st m, write (insert key st m));
    load = λ m ctx key. file_load (Assoc.lookup key m);
    save_batch = none;
  }

  loads_live : (c : Assoc (State F)) (k : Bytes) (e : ℤ) → load c none k ≢ failed e
  unfolding load
  loads_live c k e = by_entry (Assoc.lookup k c)
    where
      by_entry :
          (o : Option (State F)) → (elim o [ none ↦ missing | some st ↦ found st ]) ≢ failed e
      by_entry none h = cc
      by_entry (some st) h = cc

  pub memory-Honours : Honours memory
  unfolding save load Assoc.lookup
  memory-Honours = record {
    load-new = λ k. refl;
    save-live = λ c k st. refl;
    load-save = λ c k j st. ground (arith, lookup-insert k j st c);
    load-live = loads_live;
    save-over = λ c k st e h. cc;
    load-over = λ c k e. refl;
    load-save_batch = λ f e c us k.
        subst
          (λ g.
            (load (g c none us).0 none k ≡ last_of k (load c none k) us) × ((g c none us).1 ≡ none))
          (some-injective _ _ e) (load-save_batch c none us k);
  }

  told :
      (write : Assoc (State F) → Option ℤ) (o : Option (State F))
      → refused_load (file_store write) (file_load o) ≡ load_ignores_context ∷ []
  unfolding file_store
  told write none = refl
  told write (some st) = refl

  -- The store in a file that the example programs use does not pass: it takes no notice of a context
  -- that has ended, whatever the file system does.
  pub file_store_fails :
      (write : Assoc (State F) → Option ℤ) (canceled now : ℤ)
      → honours_context_cancellation (file_store write) canceled now ≢ []
  unfolding file_store honours_context_cancellation
  file_store_fails write canceled now h =
      let e = told write (Assoc.lookup alice (insert alice (state fl (number fl 1) now) [])) in
      let written = (file_store write).save [] (some canceled) alice (state fl (number fl 1) now) in
      let saved = refused_save (file_store write) written in
      last-not_nil saved load_ignores_context (sym (ap (λ x. saved ++ x) e) ∙ h)
