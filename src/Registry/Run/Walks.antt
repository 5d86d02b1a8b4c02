-- ===== src/Registry/Run/Walks.antt =====
-- The walks of registry/registry.go and registry/gc.go over all the shards are runs of one step for each
-- shard, if nobody else's steps come in between.
use pace.Prelude.{
  ℕ, zero, suc, ◌+◌, ◌≡◌, refl, sym, ap, ◌∙◌, Bool, List, [], ◌∷◌, ◌++◌, map, length, length-append,
  subst, get_or, set, if-both,
}
use pace.Prelude.Int.{ℤ}
use pace.Registry.{BucketApi, Registry, Shard, empty_shard, put_shard}
use pace.Registry.Gc.{Note, drop_all, drop_shards, sweep_in_place, sweep_shards}
use pace.Registry.Preserve.{shards-report_all}
use pace.Registry.Run.{Op, sweeps, drops, swept, step, run, shard}

module _ {ℓ} {A : Type ℓ} where
  set-middle : (pre xs : List A) (x y : A) → set (pre ++ x ∷ xs) (length pre) y ≡ pre ++ y ∷ xs
  set-middle [] xs x y = refl
  set-middle (p ∷ pre) xs x y = ap (λ l. p ∷ l) (set-middle pre xs x y)

  get_or-middle : (pre xs : List A) (x d : A) → get_or (pre ++ x ∷ xs) (length pre) d ≡ x
  get_or-middle [] xs x d = refl
  get_or-middle (p ∷ pre) xs x d = get_or-middle pre xs x d

  move : (pre xs : List A) (x : A) → pre ++ x ∷ xs ≡ (pre ++ x ∷ []) ++ xs
  move [] xs x = refl
  move (p ∷ pre) xs x = ap (λ l. p ∷ l) (move pre xs x)

module _ (api : BucketApi) where
  open api use {Bkt}

  -- One step for each of `n` shards, from the shard `i` on.
  abbrev each : (ℕ → Op api) → ℕ → ℕ → List (Op api)
  each o i zero = []
  each o i (suc n) = o i ∷ each o (i + 1) n

  -- A step that writes one shard, on every shard.
  run-each :
      (o : ℕ → Op api) (f : Shard Bkt → Shard Bkt) (r : Registry Bkt) (pre shs : List (Shard Bkt))
      → ((q : Registry Bkt) (i : ℕ) → step api q (o i) ≡ put_shard q i (f (shard api q i)))
      → r.shards ≡ pre ++ shs
      → (run api r (each o (length pre) (length shs))).shards ≡ pre ++ map f shs
  unfolding run put_shard
  run-each o f r pre [] h e = e
  run-each o f r pre (sh ∷ shs) h e =
      let next = step api r (o (length pre)) in
      let here : shard api r (length pre) ≡ sh =
        ap (λ l. get_or l (length pre) empty_shard) e ∙ get_or-middle pre shs sh empty_shard in
      let written : next.shards ≡ pre ++ f sh ∷ shs =
        ap (λ q. q.shards) (h r (length pre))
        ∙ ap (λ l. set l (length pre) (f (shard api r (length pre)))) e
        ∙ set-middle pre shs sh (f (shard api r (length pre)))
        ∙ ap (λ x. pre ++ f x ∷ shs) here in
      subst (λ n. (run api next (each o n (length shs))).shards ≡ pre ++ f sh ∷ map f shs)
        (length-append pre (f sh ∷ []))
        (run-each o f next (pre ++ f sh ∷ []) shs h (written ∙ move pre shs (f sh))
          ∙ sym (move pre (map f shs) (f sh)))

  -- DropAll.
  drop_shards-map :
      (notify : Bool) (now : ℤ) (shs : List (Shard Bkt))
      → (drop_shards api notify now shs).shards ≡ map (λ sh. empty_shard) shs
  unfolding drop_shards
  drop_shards-map notify now [] = refl
  drop_shards-map notify now (sh ∷ shs) = ap (λ l. empty_shard ∷ l) (drop_shards-map notify now shs)

  run-drops :
      (r : Registry Bkt) (now : ℤ) (notify : Bool)
      → (run api r (each drops 0 (length r.shards))).shards ≡ (drop_all api r now notify).0.shards
  unfolding drop_all step
  run-drops r now notify =
      let d = drop_shards api notify now r.shards in
      let emptied : Registry Bkt = record r { shards = d.shards } in
      run-each drops (λ sh. empty_shard) r [] r.shards (λ q i. refl) refl
      ∙ sym (drop_shards-map notify now r.shards)
      ∙ if-both {A = Registry Bkt × List (Note api.Tok)} (λ x. d.shards ≡ x.0.shards) notify _ _
          (sym (shards-report_all emptied d.told)) refl

  -- sweepInPlace.
  sweep_shards-map :
      (notify : Bool) (now cutoff : ℤ) (shs : List (Shard Bkt))
      → (sweep_shards api notify now cutoff shs).shards ≡ map (swept api now cutoff notify) shs
  unfolding sweep_shards
  sweep_shards-map notify now cutoff [] = refl
  sweep_shards-map notify now cutoff (sh ∷ shs) =
      ap (λ l. swept api now cutoff notify sh ∷ l) (sweep_shards-map notify now cutoff shs)

  run-sweeps :
      (r : Registry Bkt) (now cutoff : ℤ) (notify : Bool)
      → (run api r (each (λ i. sweeps i now cutoff notify) 0 (length r.shards))).shards
        ≡ (sweep_in_place api r now cutoff notify).0.shards
  unfolding sweep_in_place step
  run-sweeps r now cutoff notify =
      let d = sweep_shards api notify now cutoff r.shards in
      let left : Registry Bkt = record r { shards = d.shards } in
      run-each (λ i. sweeps i now cutoff notify) (swept api now cutoff notify) r [] r.shards
        (λ q i. refl) refl
      ∙ sym (sweep_shards-map notify now cutoff r.shards)
      ∙ if-both {A = Registry Bkt × List (Note api.Tok)} (λ x. d.shards ≡ x.0.shards) notify _ _
          (sym (shards-report_all left d.told)) refl
