-- ===== src/Limiter/Lifecycle/Runs.antt =====
-- Close and Shutdown of limiter/lifecycle.go as runs of the barrier's steps.
use pace.Prelude.{
  ℕ, ◌==◌, ◌≡◌, inl, inr, refl, sym, subst, ◌∙◌, Bool, true, false, not, ◌||◌, Option, none, some,
  arith, if◌then◌else◌, Bool-cases,
}
use pace.Prelude.Int.{ℤ}
use pace.Registry.{BucketApi}
use pace.Limiter.Lifecycle.{Lifecycle, Closing, enter, leave, shut, cancel, stop_gc, wind_up}
use pace.Limiter.Lifecycle.Calls.{
  Others, Meanwhile, drained, tear_down, finish, close, shutdown, either_error, report,
}
use pace.Limiter.Lifecycle.Barrier.{
  Step, enters, leaves, shuts, cancels, gc_stops, works, reloads, winds_up, Steps, none_left, then_,
}
use pace.Limiter.Lifecycle.Progress.{Steps-Shrinks}

if_false {ℓ} : {A : Type ℓ} (b : Bool) (x y : A) → b ≡ false → (if b then x else y) ≡ y
if_false b x y h = rw h refl

if_true {ℓ} : {A : Type ℓ} (b : Bool) (x y : A) → b ≡ true → (if b then x else y) ≡ x
if_true b x y h = rw h refl

both_over : (gc : Bool) (n : ℕ) → gc ≡ false → n ≡ 0 → (gc || not (n == 0)) ≡ false
both_over gc n h k = ground arith

module _ (api : BucketApi) where
  append : (k l m : Lifecycle api) → Steps api k l → Steps api l m → Steps api k m
  append _ l m (none_left k) t = t
  append _ l m (then_ k j n s r) t = then_ k j m s (append j l m r t)

  enter_keeps : (l : Lifecycle api) → (enter api l).0.cancelled ≡ l.cancelled
  unfolding enter
  enter_keeps l = ground arith

  enter_keeps_gc : (l : Lifecycle api) → (enter api l).0.gc_running ≡ l.gc_running
  unfolding enter
  enter_keeps_gc l = ground arith

  Step-cancelled : (k l : Lifecycle api) → Step api k l → k.cancelled ≡ true → l.cancelled ≡ true
  unfolding leave shut cancel stop_gc wind_up
  Step-cancelled _ _ (enters l) h = enter_keeps l ∙ h
  Step-cancelled _ _ (leaves l p) h = h
  Step-cancelled _ _ (shuts l) h = h
  Step-cancelled _ _ (cancels l p) h = refl
  Step-cancelled _ _ (gc_stops l p) h = h
  Step-cancelled _ _ (works l r p) h = h
  Step-cancelled _ _ (reloads l clock q) h = h
  Step-cancelled _ _ (winds_up l c p q s t u) h = h

  Step-gc_running :
      (k l : Lifecycle api) → Step api k l → k.gc_running ≡ false → l.gc_running ≡ false
  unfolding leave shut cancel stop_gc wind_up
  Step-gc_running _ _ (enters l) h = enter_keeps_gc l ∙ h
  Step-gc_running _ _ (leaves l p) h = h
  Step-gc_running _ _ (shuts l) h = h
  Step-gc_running _ _ (cancels l p) h = h
  Step-gc_running _ _ (gc_stops l p) h = refl
  Step-gc_running _ _ (works l r p) h = h
  Step-gc_running _ _ (reloads l clock q) h = h
  Step-gc_running _ _ (winds_up l c p q s t u) h = h

  Steps-keep :
      (P : Lifecycle api → Type 0) (step : (k l : Lifecycle api) → Step api k l → P k → P l)
      (k l : Lifecycle api)
      → Steps api k l
      → P k
      → P l
  Steps-keep P step _ _ (none_left l) h = h
  Steps-keep P step _ _ (then_ k l m s t) h = Steps-keep P step l m t (step k l s h)

  -- What other goroutines do during a wait is a run of steps, which ends the wait and in which no
  -- other call runs closeOnce's function.
  pub record IsFair (o : Meanwhile api) : Type 0 where
    pub gc_moves : (k : Lifecycle api) → Steps api k (o.gc_wait k)
    pub gc_ends : (k : Lifecycle api) → k.cancelled ≡ true → (o.gc_wait k).gc_running ≡ false
    pub gc_leaves : (k : Lifecycle api) → (o.gc_wait k).finished ≡ k.finished
    pub moves : (k : Lifecycle api) → Steps api k (o.wait k)
    pub drains : (k : Lifecycle api) → k.shutting_down ≡ true → (o.wait k).active ≡ 0
    pub waits : (k : Lifecycle api) → (o.wait k).finished ≡ k.finished

  -- The call returns after a run of steps, with the tear-down done and the recorded error.
  abbrev pub Returned : Lifecycle api → Option ℤ → Option (Lifecycle api × Option ℤ) → Type 0
  Returned l expired none = ⊥
  Returned l expired (some r) =
      Steps api l r.0 × (r.0.finished ≡ true) × (r.1 ≡ either_error api expired r.0.close_error)

  tear_down_runs :
      (c : Closing api) (o : Meanwhile api) (l : Lifecycle api)
      → IsFair o
      → l.shutting_down ≡ true
      → l.finished ≡ false
      → (m : Lifecycle api) × (tear_down api c o l ≡ some m) × Steps api l m × (m.finished ≡ true)
  unfolding tear_down cancel wind_up
  tear_down_runs c o l fair h f =
      let k = cancel api l in
      let w = o.gc_wait k in
      let i = o.wait w in
      let shut_w = (Steps-Shrinks api k w (fair.gc_moves k) h).0 in
      let shut_i = (Steps-Shrinks api w i (fair.moves w) shut_w).0 in
      let gone = fair.gc_ends k refl in
      let cancelled_w =
        Steps-keep (λ x. x.cancelled ≡ true) Step-cancelled k w (fair.gc_moves k) refl in
      let cancelled_i =
        Steps-keep (λ x. x.cancelled ≡ true) Step-cancelled w i (fair.moves w) cancelled_w in
      let gone_i = Steps-keep (λ x. x.gc_running ≡ false) Step-gc_running w i (fair.moves w) gone in
      let idle = fair.drains w shut_w in
      let open_i = fair.waits w ∙ fair.gc_leaves k ∙ f in
      (
        wind_up api c i,
        if_false _ none (some (wind_up api c i)) (both_over w.gc_running i.active gone idle),
        then_ l k _ (cancels l h) (
            append k w _ (fair.gc_moves k) (
              append w i _ (fair.moves w)
                (then_ i _ _ (winds_up i c shut_i cancelled_i gone_i idle open_i) (none_left _)))),
        refl,
      )

  finish_runs :
      (c : Closing api) (o : Meanwhile api) (l : Lifecycle api)
      → IsFair o
      → l.shutting_down ≡ true
      → Returned l none (finish api true c o l)
  unfolding finish
  finish_runs c o l fair h = elim (Bool-cases l.finished) [
    | inl f ↦ subst (Returned l none) (sym (if_true l.finished _ _ f)) (none_left l, f, refl)
    | inr f ↦
        let (m, e, s, d) = tear_down_runs c o l fair h f in
        subst (Returned l none) (sym (if_false l.finished _ _ f)) (
          subst (λ x. Returned l none (elim x [ none ↦ none | some m ↦ some (m, m.close_error) ]))
            (sym e) (s, d, refl))
  ]

  shut-closed : (l : Lifecycle api) → (shut api l).shutting_down ≡ true
  unfolding shut
  shut-closed l = refl

  nobody : (l : Lifecycle api) → l.active ≡ 0 → drained api l ≡ true
  nobody l h = ground arith

  Returned-after :
      (l k : Lifecycle api) (expired : Option ℤ) (r : Option (Lifecycle api × Option ℤ))
      → Steps api l k
      → Returned k expired r
      → Returned l expired r
  Returned-after l k expired none s h = h
  Returned-after l k expired (some r) s h = (append l k r.0 s h.0, h.1, h.2)

  Returned-report :
      (l : Lifecycle api) (e : ℤ) (r : Option (Lifecycle api × Option ℤ))
      → Returned l none r
      → Returned l (some e) (report api (some e) r)
  Returned-report l e none h = h
  Returned-report l e (some r) h = (h.0, h.1, refl)

  -- A call of Close that is the first to tear down returns, if what the other goroutines do lets both
  -- waits end: it is a run of the barrier's steps that ends with the tear-down done, and it returns
  -- the error of closing the store.
  pub close_runs :
      (c : Closing api) (o : Meanwhile api) (l : Lifecycle api)
      → IsFair o
      → Returned l none (close api true c o l)
  unfolding close
  close_runs c o l fair =
      let k = shut api l in
      Returned-after l k none _ (then_ l k k (shuts l) (none_left k))
        (finish_runs c o k fair (shut-closed l))

  -- A call of Shutdown that no other call of Close or Shutdown overtakes in closeOnce returns, after
  -- a run of the lifecycle's steps, with the limiter finished. It returns the error of its context
  -- where that ends before the requests do, and the recorded error of closing the store otherwise.
  -- What others do in its waits are steps too: the sweeper stops once it is cancelled, and the
  -- requests leave while Shutdown waits for them, after a cancellation where its context ends first.
  pub shutdown_runs :
      (c : Closing api) (o : Meanwhile api) (expired : Option ℤ) (patience rest : Others api)
      (l : Lifecycle api)
      → IsFair o
      → ((k : Lifecycle api) → Steps api k (patience k))
      → ((k : Lifecycle api) → Steps api k (rest k))
      → ((k : Lifecycle api) → k.shutting_down ≡ true → expired ≡ none → (patience k).active ≡ 0)
      → ((k : Lifecycle api) → k.shutting_down ≡ true → (rest k).active ≡ 0)
      → Returned l expired (shutdown api true c o expired patience rest l)
  unfolding shutdown
  shutdown_runs c o none patience rest l fair p r d e =
      let k = shut api l in
      let m = patience k in
      let shut_m = (Steps-Shrinks api k m (p k) (shut-closed l)).0 in
      subst (Returned l none)
        (sym (if_true (drained api m) _ _ (nobody m (d k (shut-closed l) refl))))
        (Returned-after l m none _ (then_ l k m (shuts l) (p k)) (finish_runs c o m fair shut_m))
  shutdown_runs c o (some x) patience rest l fair p r d e =
      let k = shut api l in
      let m = patience k in
      let shut_m = (Steps-Shrinks api k m (p k) (shut-closed l)).0 in
      let j = cancel api m in
      let shut_j =
        (Steps-Shrinks api m j (then_ m j j (cancels m shut_m) (none_left j)) shut_m).0 in
      let i = rest j in
      let shut_i = (Steps-Shrinks api j i (r j) shut_j).0 in
      subst (Returned l (some x)) (sym (if_true (drained api i) _ _ (nobody i (e j shut_j)))) (
        Returned-report l x _ (
          Returned-after l i none _
            (then_ l k i (shuts l) (append k m i (p k) (then_ m j i (cancels m shut_m) (r j))))
            (finish_runs c o i fair shut_i)))
