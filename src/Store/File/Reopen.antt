-- ===== src/Store/File/Reopen.antt =====
-- What the store of examples/store/main.go has after a restart.
use pace.Prelude.{
  Bool, true, ◌⊎◌, inl, inr, Option, none, some, List, [], ◌∷◌, ◌≡◌, refl, sym, ap, ◌∙◌, subst,
  arith, All, if◌then◌else◌,
}
use pace.Prelude.Int.{ℤ}
use pace.Prelude.Bytes.{Bytes, bytes_eq}
use pace.Prelude.Assoc
use pace.Prelude.Assoc.{Assoc, insert, lookup-insert}
use pace.Store.{State, KeyState, found, missing}
use pace.Store.Laws.{last_of}
use pace.Store.File.{FileLib, FileStore, open_file_store, load, loaded, save, save_all, encoded}

-- What the documents of encoding/json and os say: a map whose keys are texts in UTF-8 is read back as
-- it was, other keys being changed; a write without an error leaves the bytes in the file.
pub record FileLaws {F : Type 0} (io : FileLib F) : Type 0 where
  pub is_utf8 : Bytes → Bool
  pub unmarshal-marshal :
      (m : Assoc (State F)) (b : Bytes)
      → All (λ (e : Bytes × State F). is_utf8 e.0 ≡ true) m
      → io.marshal m ≡ inr b
      → ((k : Bytes) → Assoc.lookup k (io.unmarshal b []).0 ≡ Assoc.lookup k m)
        × ((io.unmarshal b []).1 ≡ none)
  pub file-write_file :
      (f : Option Bytes) (b : Bytes) → (io.write_file f b).1 ≡ none → (io.write_file f b).0 ≡ some b

module _ {F : Type 0} {io : FileLib F} (laws : FileLaws io) where
  open laws use {is_utf8}

  -- The keys of a store are texts in UTF-8.
  abbrev pub IsText : Assoc (State F) → Type 0
  IsText = All (λ (e : Bytes × State F). is_utf8 e.0 ≡ true)

  insert-IsText :
      (k : Bytes) (st : State F) (m : Assoc (State F))
      → is_utf8 k ≡ true
      → IsText m
      → IsText (insert k st m)
  unfolding insert
  insert-IsText k st [] h t = (h, tt)
  insert-IsText k st ((j, w) ∷ m) h t = ground (arith, insert-IsText k st m h t.1)

  all-save :
      (s : FileStore io) (k : Bytes) (st : State F) → (save io s k st).0.all ≡ insert k st s.all
  unfolding save
  all-save s k st = by_code (io.marshal (insert k st s.all))
    where
      by_code :
          (x : ℤ ⊎ Bytes)
          → (encoded io (record s { all = insert k st s.all }) x).0.all ≡ insert k st s.all
      by_code (inl e) = refl
      by_code (inr b) = refl

  -- A store that was opened from the file now, and answers as `s` does.
  pub record Reopens (s : FileStore io) : Type 0 where
    pub again : FileStore io
    pub opened : open_file_store io none s.file ≡ inr (again, none)
    pub same : (k : Bytes) → load io again k ≡ load io s k

  saved-Reopens :
      (s : FileStore io) (k : Bytes) (st : State F)
      → is_utf8 k ≡ true
      → IsText s.all
      → (save io s k st).1 ≡ none
      → Reopens (save io s k st).0
  unfolding save open_file_store load
  saved-Reopens s k st h t e = by_code (io.marshal m) refl e
    where
      m : Assoc (State F)
      m = insert k st s.all

      by_code :
          (x : ℤ ⊎ Bytes)
          → io.marshal m ≡ x
          → (encoded io (record s { all = m }) x).1 ≡ none
          → Reopens (encoded io (record s { all = m }) x).0
      by_code (inl e) p q = cc
      by_code (inr b) p q =
          let (same, none_) = laws.unmarshal-marshal m b (insert-IsText k st s.all h t) p in
          record {
            again = record { all = (io.unmarshal b []).0; file = some b };
            opened =
                rw (laws.file-write_file s.file b q)
                  (ap (λ e. inr (record { all = (io.unmarshal b []).0; file = some b }, e)) none_);
            same = λ j. ap (loaded io) (same j);
          }

  load-save :
      (s : FileStore io) (k j : Bytes) (st : State F)
      → load io (save io s k st).0 j ≡ (if bytes_eq k j then found st else load io s j)
  unfolding load
  load-save s k j st =
      ap (λ m. loaded io (Assoc.lookup j m)) (all-save s k st)
      ∙ ground (arith, lookup-insert k j st s.all)

  -- Every key of a list of states is text.
  abbrev pub AreTexts : List (KeyState F) → Type 0
  AreTexts = All (λ (u : KeyState F). is_utf8 u.key ≡ true)

  save_all-kept :
      (s : FileStore io) (us : List (KeyState F)) (k : Bytes)
      → IsText s.all
      → AreTexts us
      → (load io (save_all io s us) k ≡ last_of k (load io s k) us) × IsText (save_all io s us).all
  unfolding save_all
  save_all-kept s [] k t h = (refl, t)
  save_all-kept s (u ∷ us) k t h =
      let s' = (save io s u.key u.state).0 in
      let t' =
        subst IsText (sym (all-save s u.key u.state)) (insert-IsText u.key u.state s.all h.0 t) in
      let rest = save_all-kept s' us k t' h.1 in
      (rest.0 ∙ ap (λ old. last_of k old us) (load-save s u.key k u.state), rest.1)

  -- A store that was opened before there was a file, and whose last Save returned no error, can be
  -- opened again from its file, and then loads for each key the last state that was saved for it and
  -- nothing for a key that never was, whatever became of the writes before. Keys are texts in UTF-8.
  pub load-reopened :
      (s : FileStore io) (us : List (KeyState F)) (u : KeyState F)
      → open_file_store io none none ≡ inr (s, none)
      → AreTexts us
      → is_utf8 u.key ≡ true
      → (save io (save_all io s us) u.key u.state).1 ≡ none
      → let file = (save io (save_all io s us) u.key u.state).0.file in
        (again : FileStore io) × (open_file_store io none file ≡ inr (again, none))
        × ((k : Bytes)
            → load io again k ≡ (if bytes_eq u.key k then found u.state else last_of k missing us))
  unfolding open_file_store load Assoc.lookup
  load-reopened s us u new h t e =
      let empty : s.all ≡ [] = ground (arith, new) in
      let kept = λ (k : Bytes). save_all-kept s us k (rw empty tt) h in
      let r = saved-Reopens (save_all io s us) u.key u.state t (kept u.key).1 e in
      (
        r.again,
        r.opened,
        λ k.
            r.same k
            ∙ load-save (save_all io s us) u.key k u.state
            ∙ ap (λ x. if bytes_eq u.key k then found u.state else x)
                ((kept k).0 ∙ ap (λ m. last_of k (loaded io (Assoc.lookup k m)) us) empty),
      )
