-- ===== src/Limiter/Lifecycle/Progress.antt =====
-- Closing and shutting down by limiter/lifecycle.go come to an end, and are runs of the barrier's steps.
use pace.Prelude.{
  ℕ, zero, suc, ◌+◌, ◌≤◌, ◌≡◌, refl, sym, subst, inl, inr, true, false, arith, Bool-cases,
}
use pace.Registry.{BucketApi}
use pace.Limiter.Lifecycle.{Lifecycle, Closing, leave, shut, cancel, stop_gc, wind_up}
use pace.Limiter.Lifecycle.Barrier.{
  Step, enters, leaves, shuts, cancels, gc_stops, works, reloads, winds_up, Steps, none_left, then_,
  enter-closed,
}

module _ (api : BucketApi) where
  -- The number of steps.
  abbrev pub count : (l m : Lifecycle api) → Steps api l m → ℕ
  count _ _ (none_left l) = 0
  count _ _ (then_ k l m s t) = suc (count l m t)

  -- What a limiter that is shut down cannot go back on.
  abbrev pub Shrinks : Lifecycle api → Lifecycle api → Type 0
  Shrinks k l = (l.shutting_down ≡ true) × (l.active ≤ k.active)

  Step-Shrinks : (k l : Lifecycle api) → Step api k l → k.shutting_down ≡ true → Shrinks k l
  unfolding leave shut cancel stop_gc wind_up
  Step-Shrinks _ _ (enters l) h =
      subst (λ m. Shrinks l m.0) (sym (enter-closed api l h)) (h, omega arith)
  Step-Shrinks _ _ (leaves l p) h = (h, omega arith)
  Step-Shrinks _ _ (shuts l) h = (refl, omega arith)
  Step-Shrinks _ _ (cancels l p) h = (h, omega arith)
  Step-Shrinks _ _ (gc_stops l p) h = (h, omega arith)
  Step-Shrinks _ _ (works l r p) h = (h, omega arith)
  Step-Shrinks _ _ (reloads l clock q) h = (h, omega arith)
  Step-Shrinks _ _ (winds_up l c p q s t u) h = (h, omega arith)

  pub Steps-Shrinks : (k l : Lifecycle api) → Steps api k l → k.shutting_down ≡ true → Shrinks k l
  Steps-Shrinks _ _ (none_left l) h = (h, omega arith)
  Steps-Shrinks _ _ (then_ k l m s t) h =
      let a = Step-Shrinks k l s h in
      let b = Steps-Shrinks l m t a.0 in (b.0, omega (arith, a.1, b.1))

  -- A run to the end of closing, in at most `n` steps.
  abbrev pub Ends : ℕ → Lifecycle api → Type 0
  Ends n l = (m : Lifecycle api) × (s : Steps api l m) × (m.finished ≡ true) × (count l m s ≤ n)

  after : (n : ℕ) (k l : Lifecycle api) → Step api k l → Ends n l → Ends (suc n) k
  after n k l s (m, t, f, b) = (m, then_ k l m s t, f, omega (arith, b))

  widen : (n o : ℕ) (l : Lifecycle api) → n ≤ o → Ends n l → Ends o l
  widen n o l h (m, t, f, b) = (m, t, f, omega (arith, b, h))

  idle-Ends :
      (c : Closing api) (l : Lifecycle api)
      → l.shutting_down ≡ true
      → l.active ≡ 0
      → l.finished ≡ false
      → Ends 3 l
  unfolding cancel stop_gc wind_up
  idle-Ends c l h a f =
      let k = cancel api l in
      let g = stop_gc api k in
      let m = wind_up api c g in
      after 2 l k (cancels l h) (
        after 1 k g (gc_stops k refl)
          (after 0 g m (winds_up g c h refl refl a f) (m, none_left m, refl, omega arith)))

  ends :
      (c : Closing api) (n : ℕ) (l : Lifecycle api)
      → l.shutting_down ≡ true
      → l.active ≡ n
      → l.finished ≡ false
      → Ends (n + 3) l
  unfolding leave
  ends c zero l h a f = idle-Ends c l h a f
  ends c (suc n) l h a f = widen (suc (n + 3)) (suc n + 3) l (omega arith) (
      after (n + 3) l (leave api l) (leaves l (omega (arith, a)))
        (ends c n (leave api l) h (omega (arith, a)) f))

  -- A limiter that is shut down can always be closed: whatever has been done since, as many further
  -- steps as there were requests inside when it was shut, and three more, are enough. So neither wait
  -- of `finish` is for something that cannot happen.
  pub shut-Ends :
      (c : Closing api) (k l : Lifecycle api)
      → Steps api k l
      → k.shutting_down ≡ true
      → Ends (k.active + 3) l
  shut-Ends c k l s h =
      let (shutting, fewer) = Steps-Shrinks k l s h in
      elim (Bool-cases l.finished) [
        | inl f ↦ (l, none_left l, f, omega arith)
        | inr f ↦
            widen (l.active + 3) (k.active + 3) l (omega (arith, fewer))
              (ends c l.active l shutting refl f)
      ]
