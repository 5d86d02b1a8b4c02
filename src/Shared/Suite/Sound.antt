-- ===== src/Shared/Suite/Sound.antt =====
-- What shared/quotatest/quotatest.go shows of a backend that passes.
use pace.Prelude.{
  append-nil, ℕ, zero, suc, ◌<◌, ltb, ◌≤◌, ◌≡◌, refl, Bool, true, false, none, some, List, [], ◌∷◌,
  arith, if◌then◌else◌,
}
use pace.Prelude.Int.{ℤ}
use pace.Float.{Float64}
use pace.Shared.{TakeRequest, Grant, Answer, answered, broke}
use pace.Shared.Suite.{
  Subject, Fault, alice, bob, pacetest, other_space, then_taken, taking, spend, all_granted, slowly,
  grants_within_burst, refuses_beyond_burst, to_refuse, to_grant, over_granted, refused,
  retry_after_is_long_enough, refusal_consumes_nothing, keys_share, namespaces_share,
  keys_are_independent, namespaces_are_independent, race, judged,
  concurrent_takes_do_not_over_grant, reported, honours_context_cancellation, suite,
}

module _ {fl : Float64} (b : Subject fl) where
  open b use {Ledger, new_quota}

  -- The ledger after `n` takes.
  abbrev pub after : ℕ → Ledger → TakeRequest fl.F → Ledger
  after zero l r = l
  after (suc n) l r = after n (b.take l none r).0 r

  -- The next take is answered, and granted or not.
  abbrev pub Answers : Bool → Ledger → TakeRequest fl.F → Type 0
  Answers ok l r = (g : Grant fl.F) × ((b.take l none r).1 ≡ answered g) × (g.granted ≡ ok)

  then_taken_lem :
      (f : Ledger → Grant fl.F → List Fault) (x : Ledger × Answer fl.F)
      → then_taken b f x ≡ []
      → (g : Grant fl.F) × (x.1 ≡ answered g) × (f x.0 g ≡ [])
  then_taken_lem f (l, answered g) h = (g, refl, h)
  then_taken_lem f (l, broke e) h = cc

  spend_lem :
      (n : ℕ) (l : Ledger) (r : TakeRequest fl.F) (f : Ledger → List Fault)
      → spend b n l r f ≡ []
      → f (after n l r) ≡ []
  unfolding spend taking
  spend_lem zero l r f h = h
  spend_lem (suc n) l r f h =
      let x = then_taken_lem (λ m g. spend b n m r f) (b.take l none r) h in
      spend_lem n (b.take l none r).0 r f x.2

  taking-refused :
      (l : Ledger) (r : TakeRequest fl.F) (x : Fault)
      → taking b l r (λ m g. to_refuse b x g) ≡ []
      → Answers false l r
  unfolding taking
  taking-refused l r x h =
      let y = then_taken_lem (λ m g. to_refuse b x g) (b.take l none r) h in
      (y.0, y.1, ground (arith, y.2))

  taking-granted :
      (l : Ledger) (r : TakeRequest fl.F) (x : Fault)
      → taking b l r (λ m g. to_grant b x g) ≡ []
      → Answers true l r
  unfolding taking
  taking-granted l r x h =
      let y = then_taken_lem (λ m g. to_grant b x g) (b.take l none r) h in
      (y.0, y.1, ground (arith, y.2))

  race_answered :
      (n : ℕ) (l : Ledger) (r : TakeRequest fl.F) (g : Grant fl.F)
      → (b.take l none r).1 ≡ answered g
      → g.granted ≡ true
      → race b n (b.take l none r).0 r ≡ n
      → race b (suc n) l r ≡ suc n
  unfolding race
  race_answered n l r g h k p = rw (h, k, p) (omega arith)

  all_granted_lem :
      (n : ℕ) (l : Ledger) (r : TakeRequest fl.F) → all_granted b n l r ≡ [] → race b n l r ≡ n
  unfolding all_granted taking race
  all_granted_lem zero l r h = refl
  all_granted_lem (suc n) l r h =
      let x =
        then_taken_lem
          (λ m g. let rest = all_granted b n m r in if g.granted then rest else refused ∷ [])
          (b.take l none r) h in
      race_answered n l r x.0 x.1 (ground (arith, x.2))
        (all_granted_lem n _ r (ground (arith, x.2)))

  judged_lem : (n : ℕ) → judged b n ≡ [] → (n ≤ 10) × (0 < n)
  judged_lem n h =
      let x = append-nil (if ltb 10 n then over_granted ∷ [] else []) _ h in
      (ground (arith, x.0), ground (arith, x.1))

  -- What is shown of a backend, by eight fresh ledgers of it.
  pub record Limits (is_canceled : ℤ → Bool) (canceled : ℤ) : Type 0 where
    pub within : race b 5 new_quota (slowly b pacetest alice 5) ≡ 5
    pub beyond : let r = slowly b pacetest alice 3 in Answers false (after 3 new_quota r) r
    pub keys :
        Answers true (after 5 new_quota (slowly b pacetest alice 2)) (slowly b pacetest bob 2)
    pub spaces :
        Answers true (after 5 new_quota (slowly b pacetest alice 2)) (slowly b other_space alice 2)
    pub raced : race b 64 new_quota (slowly b pacetest alice 10) ≤ 10
    pub served : 0 < race b 64 new_quota (slowly b pacetest alice 10)
    pub canceled_take :
        (e : ℤ) × ((b.take new_quota (some canceled) (slowly b pacetest alice 5)).1 ≡ broke e)
        × (is_canceled e ≡ true)

  reported_lem :
      (is_canceled : ℤ → Bool) (a : Answer fl.F)
      → reported b is_canceled a ≡ []
      → (e : ℤ) × (a ≡ broke e) × (is_canceled e ≡ true)
  reported_lem is_canceled (answered g) h = cc
  reported_lem is_canceled (broke e) h = (e, refl, ground (arith, h))

  -- A backend that passes the suite grants five takes of a burst of five; refuses the fourth of a
  -- burst of three; serves a key, and a namespace, after another one's burst of two was overspent;
  -- grants one to ten of 64 takes that follow one another for a burst of ten; and answers a take with a
  -- cancelled context with the error of that.
  pub suite-Limits :
      (is_canceled : ℤ → Bool) (canceled : ℤ)
      → suite b is_canceled canceled ≡ []
      → Limits is_canceled canceled
  unfolding suite grants_within_burst refuses_beyond_burst keys_are_independent
      namespaces_are_independent concurrent_takes_do_not_over_grant honours_context_cancellation
  suite-Limits is_canceled canceled h =
      let x = append-nil _ (honours_context_cancellation b is_canceled canceled) h in
      let r = append-nil _ (concurrent_takes_do_not_over_grant b) x.0 in
      let n = append-nil _ (namespaces_are_independent b) r.0 in
      let k = append-nil _ (keys_are_independent b) n.0 in
      let t = append-nil _ (retry_after_is_long_enough b) k.0 in
      let u = append-nil _ (refusal_consumes_nothing b) t.0 in
      let c = append-nil (grants_within_burst b) (refuses_beyond_burst b) u.0 in
      record {
        within = all_granted_lem 5 _ _ c.0;
        beyond = taking-refused _ _ over_granted (spend_lem 3 _ _ _ c.1);
        keys = taking-granted _ _ keys_share (spend_lem 5 _ _ _ k.1);
        spaces = taking-granted _ _ namespaces_share (spend_lem 5 _ _ _ n.1);
        raced = (judged_lem _ r.1).0;
        served = (judged_lem _ r.1).1;
        canceled_take = reported_lem is_canceled _ x.1;
      }
