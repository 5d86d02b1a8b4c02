-- ===== src/Shared/Suite/Passes.antt =====
-- Which backends pass the checks of shared/quotatest/quotatest.go.
use pace.Prelude.{Bool, true, false, none, [], ◌≡◌, refl, ap, ◌∙◌, ◌⊎◌, inl, inr, Bool-cases, arith}
use pace.Prelude.Int.{ℤ, pos, leb_ℤ, ltb_ℤ}
use pace.Prelude.Bytes.{bytes_eq}
use pace.Float.{Float64}
use pace.Shared.{Grant}
use pace.Shared.Suite.{
  Subject, retry_too_short, alice, bob, pacetest, other_space, minute, slow, quick, taking, slowly,
  grants_within_burst, to_grant, refuses_beyond_burst, schedule, refusal_consumes_nothing, quickly,
  retried, retry_after_is_long_enough, keys_are_independent, namespaces_are_independent, race,
  judged, concurrent_takes_do_not_over_grant, reported, honours_context_cancellation, suite,
}
use pace.Shared.Suite.Budgets.{
  Budgets, after, taken, spent_all, granted_all, refused_all, raced, exhausted, refuses, apart,
}

module _ {fl : Float64} (b : Subject fl) (h : Budgets b) where
  open fl use {F}

  passes_within : grants_within_burst b ≡ []
  unfolding grants_within_burst
  passes_within =
      granted_all b h pacetest alice (slow fl) 5 5 b.new_quota
        (ground (arith, h.fresh pacetest alice))

  passes_beyond : refuses_beyond_burst b ≡ []
  unfolding refuses_beyond_burst
  passes_beyond =
      let l = after b h 3 b.new_quota (slowly b pacetest alice 3) in
      spent_all b h pacetest alice (slow fl) 3 3 b.new_quota _
      ∙ taken b h pacetest alice (slow fl) 3 l _
      ∙ rw (refuses b h pacetest alice 3 3 (slow fl) (omega arith)) refl

  passes_refusal : refusal_consumes_nothing b ≡ []
  unfolding refusal_consumes_nothing
  passes_refusal =
      let l = after b h 2 b.new_quota (slowly b pacetest alice 2) in
      let m = after b h 20 l (slowly b pacetest alice 2) in
      spent_all b h pacetest alice (slow fl) 2 2 b.new_quota _
      ∙ refused_all b h pacetest alice (slow fl) 2 20 l _
          (exhausted b h pacetest alice 2 2 (slow fl) (omega arith))
      ∙ taken b h pacetest alice (slow fl) 2 m _
      ∙ scheduled (h.grant m (slowly b pacetest alice 2)) (h.slow_retry m pacetest alice 2)
    where
      scheduled :
          (g : Grant F)
          → ltb_ℤ (pos 7_200_000_000_000) g.retry_after ≡ false
          → schedule b (pos 7_200_000_000_000) g ≡ []
      scheduled g e = ground arith

  passes_retry : retry_after_is_long_enough b ≡ []
  unfolding retry_after_is_long_enough
  passes_retry =
      let l = after b h 1 b.new_quota (quickly b) in
      let g = h.grant l (quickly b) in
      let m = (b.take l none (quickly b)).0 in
      let word = refuses b h pacetest alice 1 1 (quick fl) (omega arith) in
      spent_all b h pacetest alice (quick fl) 1 1 b.new_quota _
      ∙ taken b h pacetest alice (quick fl) 1 l (retried b)
      ∙ (elim (Bool-cases (leb_ℤ g.retry_after (pos 0))) [
        | inl soon ↦ by_word m g word (inl soon)
        | inr late ↦ by_word m g word (
            inr (
              h.quick_retry l pacetest alice 1,
              taken b h pacetest alice (quick fl) 1 (b.sleep m g.retry_after) _
                  ∙ rw (h.waited l pacetest alice (quick fl) 1 (omega arith) word late) refl,
            ))
      ])
    where
      by_word :
          (m : b.Ledger) (g : Grant F)
          → g.granted ≡ false
          → ((leb_ℤ g.retry_after (pos 0) ≡ true)
              ⊎ ((ltb_ℤ minute g.retry_after ≡ false)
                  × (taking b
                        (b.sleep m g.retry_after)
                        (quickly b)
                        (λ n x. to_grant b retry_too_short x)
                      ≡ [])))
          → retried b m g ≡ []
      by_word m g w (inl soon) = ground arith
      by_word m g w (inr (most, again)) = ground (arith, again)

  passes_keys : keys_are_independent b ≡ []
  unfolding keys_are_independent bytes_eq
  passes_keys =
      spent_all b h pacetest alice (slow fl) 2 5 b.new_quota _
      ∙ taken b h pacetest bob (slow fl) 2 _ _
      ∙ rw (apart b h pacetest alice pacetest bob refl) refl

  passes_namespaces : namespaces_are_independent b ≡ []
  unfolding namespaces_are_independent bytes_eq
  passes_namespaces =
      spent_all b h pacetest alice (slow fl) 2 5 b.new_quota _
      ∙ taken b h other_space alice (slow fl) 2 _ _
      ∙ rw (apart b h pacetest alice other_space alice refl) refl

  passes_race : concurrent_takes_do_not_over_grant b ≡ []
  unfolding concurrent_takes_do_not_over_grant
  passes_race =
      let all : race b 64 b.new_quota (slowly b pacetest alice 10) ≡ 10 =
        ground
          (arith, raced b h pacetest alice (slow fl) 10 64 b.new_quota, h.fresh pacetest alice) in
      ap (judged b) all

  passes_context :
      (is_canceled : ℤ → Bool) (canceled : ℤ)
      → is_canceled canceled ≡ true
      → honours_context_cancellation b is_canceled canceled ≡ []
  unfolding honours_context_cancellation
  passes_context is_canceled canceled e =
      ap (reported b is_canceled) (h.over b.new_quota (slowly b pacetest alice 5) canceled)
      ∙ rw e refl

  -- A backend that keeps such budgets passes every check of the suite: it grants a whole
  -- burst and nothing beyond it, however many takes race for it; a refusal draws on nothing and says
  -- truly when to come back; keys and namespaces have budgets of their own; and a cancelled context is
  -- reported.
  pub quota_suite_passes :
      (is_canceled : ℤ → Bool) (canceled : ℤ)
      → is_canceled canceled ≡ true
      → suite b is_canceled canceled ≡ []
  unfolding suite
  quota_suite_passes is_canceled canceled e =
      rw
        (
          passes_within,
          passes_beyond,
          passes_refusal,
          passes_retry,
          passes_keys,
          passes_namespaces,
          passes_race,
          passes_context is_canceled canceled e,
        )
        refl
