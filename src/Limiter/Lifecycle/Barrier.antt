-- ===== src/Limiter/Lifecycle/Barrier.antt =====
-- The shutdown barrier of limiter/lifecycle.go, in any interleaving of its steps.
use pace.Prelude.{
  ℕ, ◌+◌, ◌<◌, ◌≡◌, ◌⊎◌, refl, ap, sym, subst, inl, inr, ◌∙◌, Bool, true, false, List, [], ◌∷◌,
  length, arith, if-both,
}
use pace.Prelude.Int.{ℤ}
use pace.Prelude.Bytes.{Bytes}
use pace.Prelude.Word.{add_int64}
use pace.Registry.{BucketApi, Registry, Shard, keys, live_total, reload, reload_shards}
use pace.Registry.Gc.Counts.{drop_all_counts}
use pace.Limiter.Lifecycle.{Lifecycle, Closing, start, enter, leave, shut, cancel, stop_gc, wind_up}

module _ (api : BucketApi) where
  open api use {Bkt, Quo}

  live_total-reload :
      (clock : ℕ → ℤ) (q : Bytes → Quo) (n : ℕ) (shs : List (Shard Bkt))
      → live_total (reload_shards api clock q n shs) ≡ live_total shs
  live_total-reload clock q n [] = refl
  live_total-reload clock q n (sh ∷ shs) =
      ap (λ m. add_int64 sh.live m) (live_total-reload clock q (n + length sh.keys) shs)

  -- A step of some goroutine. Only requests that have entered, and the sweeper while it runs, change
  -- the registry in other ways than a reload; only closing cancels, and it waits for both counts.
  pub data Step : Lifecycle api → Lifecycle api → Type 0 where
    enters : (l : Lifecycle api) → Step l (enter api l).0
    leaves : (l : Lifecycle api) → 0 < l.active → Step l (leave api l)
    shuts : (l : Lifecycle api) → Step l (shut api l)
    cancels : (l : Lifecycle api) → l.shutting_down ≡ true → Step l (cancel api l)
    gc_stops : (l : Lifecycle api) → l.cancelled ≡ true → Step l (stop_gc api l)
    works :
        (l : Lifecycle api) (r : Registry Bkt)
        → ((0 < l.active) ⊎ (l.gc_running ≡ true))
        → Step l (record l { registry = r })
    reloads :
        (l : Lifecycle api) (clock : ℕ → ℤ) (q : Bytes → Quo)
        → Step l (record l { registry = reload api l.registry clock q })
    winds_up :
        (l : Lifecycle api) (c : Closing api)
        → l.shutting_down ≡ true
        → l.cancelled ≡ true
        → l.gc_running ≡ false
        → l.active ≡ 0
        → l.finished ≡ false
        → Step l (wind_up api c l)

  pub data Steps : Lifecycle api → Lifecycle api → Type 0 where
    none_left : (l : Lifecycle api) → Steps l l
    then_ : (k l m : Lifecycle api) → Step k l → Steps l m → Steps k m

  pub record IsFinished (l : Lifecycle api) : Type 0 where
    pub shut_down : l.shutting_down ≡ true
    pub nobody : l.active ≡ 0
    pub no_gc : l.gc_running ≡ false
    pub emptied : keys l.registry ≡ 0

  -- Nothing is dropped before everybody left.
  abbrev IsOrderly : Lifecycle api → Type 0
  IsOrderly l = l.finished ≡ true → IsFinished l

  pub enter-closed : (l : Lifecycle api) → l.shutting_down ≡ true → enter api l ≡ (l, false)
  unfolding enter
  enter-closed l h = rw h

  enter-finished : (l : Lifecycle api) → (enter api l).0.finished ≡ l.finished
  unfolding enter
  enter-finished l =
      if-both {A = Lifecycle api × Bool} (λ m. m.0.finished ≡ l.finished) l.shutting_down _ _ refl
        refl

  Step-IsOrderly : (k l : Lifecycle api) → Step k l → IsOrderly k → IsOrderly l
  unfolding leave shut cancel stop_gc wind_up reload keys
  Step-IsOrderly _ _ (enters l) v h =
      let f = v (sym (enter-finished l) ∙ h) in
      subst (λ m. IsFinished m.0) (sym (enter-closed l f.shut_down)) f
  Step-IsOrderly _ _ (leaves l p) v h =
      let f = v h in
      record {
        shut_down = f.shut_down;
        nobody = omega (arith, f.nobody);
        no_gc = f.no_gc;
        emptied = f.emptied;
      }
  Step-IsOrderly _ _ (shuts l) v h =
      let f = v h in
      record { shut_down = refl; nobody = f.nobody; no_gc = f.no_gc; emptied = f.emptied }
  Step-IsOrderly _ _ (cancels l p) v h =
      let f = v h in
      record { shut_down = p; nobody = f.nobody; no_gc = f.no_gc; emptied = f.emptied }
  Step-IsOrderly _ _ (gc_stops l p) v h =
      let f = v h in
      record { shut_down = f.shut_down; nobody = f.nobody; no_gc = refl; emptied = f.emptied }
  Step-IsOrderly _ _ (works l r (inl p)) v h =
      let no : ⊥ = omega (arith, p, (v h).nobody) in elim no [ ]
  Step-IsOrderly _ _ (works l r (inr p)) v h =
      let no : ⊥ = ground (arith, p, (v h).no_gc) in elim no [ ]
  Step-IsOrderly _ _ (reloads l clock q) v h =
      let f = v h in
      record {
        shut_down = f.shut_down;
        nobody = f.nobody;
        no_gc = f.no_gc;
        emptied = live_total-reload clock q 0 l.registry.shards ∙ f.emptied;
      }
  Step-IsOrderly _ _ (winds_up l c p q s t u) v h = record {
    shut_down = p;
    nobody = t;
    no_gc = s;
    emptied = (drop_all_counts api l.registry c.now c.observes).0;
  }

  Steps-IsOrderly : (k l : Lifecycle api) → Steps k l → IsOrderly k → IsOrderly l
  Steps-IsOrderly _ _ (none_left l) v = v
  Steps-IsOrderly _ _ (then_ k l m s t) v = Steps-IsOrderly l m t (Step-IsOrderly k l s v)

  -- What does not change any more.
  abbrev pub IsOver : Lifecycle api → Lifecycle api → Type 0
  IsOver l m = (m.finished ≡ true) × (m.acts ≡ l.acts) × (m.close_error ≡ l.close_error)

  Step-IsOver : (l m : Lifecycle api) → Step l m → l.finished ≡ true → IsFinished l → IsOver l m
  unfolding leave shut cancel stop_gc
  Step-IsOver _ _ (enters l) h f =
      subst (λ m. IsOver l m.0) (sym (enter-closed l f.shut_down)) (h, refl, refl)
  Step-IsOver _ _ (leaves l p) h f = (h, refl, refl)
  Step-IsOver _ _ (shuts l) h f = (h, refl, refl)
  Step-IsOver _ _ (cancels l p) h f = (h, refl, refl)
  Step-IsOver _ _ (gc_stops l p) h f = (h, refl, refl)
  Step-IsOver _ _ (works l r p) h f = (h, refl, refl)
  Step-IsOver _ _ (reloads l clock q) h f = (h, refl, refl)
  Step-IsOver _ _ (winds_up l c p q s t u) h f = let no : ⊥ = ground (arith, h, u) in elim no [ ]

  Steps-IsOver :
      (l m : Lifecycle api)
      → Steps l m
      → l.finished ≡ true
      → IsFinished l
      → IsOver l m × IsFinished m
  Steps-IsOver _ _ (none_left l) h f = ((h, refl, refl), f)
  Steps-IsOver _ _ (then_ k l m s t) h f =
      let a = Step-IsOver k l s h f in
      let b = Steps-IsOver l m t a.0 (Step-IsOrderly k l s (λ _. f) a.0) in
      ((b.0.0, b.0.1 ∙ a.1, b.0.2 ∙ a.2), b.1)

  -- In every interleaving that starts with a new limiter: once the keys are dropped, no request is
  -- inside, none gets in again, the sweeper has stopped and no key is counted, and this stays so.
  -- Whatever is called afterwards, the store is flushed and closed no second time and the recorded
  -- error of closing does not change.
  pub finished_forever :
      (r : Registry Bkt) (l m : Lifecycle api)
      → Steps (start api r) l
      → l.finished ≡ true
      → Steps l m
      → IsFinished l × IsOver l m × IsFinished m × (enter api m ≡ (m, false))
  unfolding start
  finished_forever r l m s h t =
      let f =
        Steps-IsOrderly (start api r) l s (λ p. let no : ⊥ = ground (arith, p) in elim no [ ]) h in
      let (o, g) = Steps-IsOver l m t h f in (f, o, g, enter-closed m g.shut_down)
