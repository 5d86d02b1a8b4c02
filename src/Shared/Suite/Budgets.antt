-- ===== src/Shared/Suite/Budgets.antt =====
-- What a backend is to do so that it passes the checks of shared/quotatest/quotatest.go, and what takes
-- in a row then come to.
use pace.Prelude.{
  ℕ, zero, suc, ◌+◌, ◌≤◌, ◌<◌, ltb, Bool, true, false, ◌&&◌, none, some, List, [], ◌≡◌, refl, ap,
  ◌∙◌, arith, if◌then◌else◌,
}
use pace.Prelude.Int.{ℤ, pos, leb_ℤ, ltb_ℤ}
use pace.Prelude.Bytes.{Bytes, bytes_eq, bytes_eq_refl}
use pace.Float.{Float64}
use pace.Shared.{TakeRequest, Grant, answered, broke}
use pace.Shared.Suite.{
  Subject, Fault, minute, slow, quick, ask, then_taken, taking, spend, all_granted, none_granted_of,
  one_if, race,
}

abbrev pub same : Bytes → Bytes → Bytes → Bytes → Bool
same space key space' key' = bytes_eq space space' && bytes_eq key key'

-- A backend that serves as the suite expects, while nothing refills: it keeps a budget for each
-- namespace and key, which a granted take and nothing else draws on; what it says of a retry is true;
-- and a context that has ended is reported.
pub record Budgets {fl : Float64} (b : Subject fl) : Type 0 where
  pub spent : b.Ledger → Bytes → Bytes → ℕ
  pub fresh : (space key : Bytes) → spent b.new_quota space key ≡ 0
  pub grant : b.Ledger → TakeRequest fl.F → Grant fl.F
  pub answers :
      (l : b.Ledger) (space key : Bytes) (rate : fl.F) (n : ℕ)
      → ((b.take l none (ask fl space key rate n)).1 ≡ answered (grant l (ask fl space key rate n)))
        × ((grant l (ask fl space key rate n)).granted ≡ ltb (spent l space key) n)
  pub draws :
      (l : b.Ledger) (space key space' key' : Bytes) (rate : fl.F) (n : ℕ)
      → spent (b.take l none (ask fl space key rate n)).0 space' key' ≡ (
          if same space key space' key' && ltb (spent l space key) n
          then spent l space' key' + 1
          else spent l space' key')
  -- At one token an hour no retry is put off for more than two hours, at twenty a second for no more
  -- than a minute, and after the wait there is a token.
  pub slow_retry :
      (l : b.Ledger) (space key : Bytes) (n : ℕ)
      → ltb_ℤ (pos 7_200_000_000_000) (grant l (ask fl space key (slow fl) n)).retry_after ≡ false
  pub quick_retry :
      (l : b.Ledger) (space key : Bytes) (n : ℕ)
      → ltb_ℤ minute (grant l (ask fl space key (quick fl) n)).retry_after ≡ false
  pub waited :
      (l : b.Ledger) (space key : Bytes) (rate : fl.F) (n : ℕ)
      → 0 < n
      → (grant l (ask fl space key rate n)).granted ≡ false
      → leb_ℤ (grant l (ask fl space key rate n)).retry_after (pos 0) ≡ false
      → let r = ask fl space key rate n in
        (grant (b.sleep (b.take l none r).0 (grant l r).retry_after) r).granted ≡ true
  pub over : (l : b.Ledger) (r : TakeRequest fl.F) (e : ℤ) → (b.take l (some e) r).1 ≡ broke e

module _ {fl : Float64} (b : Subject fl) (h : Budgets b) where
  open fl use {F}

  -- The ledger after a loop of takes.
  pub after : ℕ → b.Ledger → TakeRequest F → b.Ledger
  after zero l r = l
  after (suc k) l r = after k (b.take l none r).0 r

  module _ (space key : Bytes) (rate : F) (n : ℕ) where
    abbrev asked : TakeRequest F
    asked = ask fl space key rate n

    pub taken :
        (l : b.Ledger) (f : b.Ledger → Grant F → List Fault)
        → taking b l asked f ≡ f (b.take l none asked).0 (h.grant l asked)
    unfolding taking
    taken l f =
        ap (λ a. then_taken b f ((b.take l none asked).0, a)) (h.answers l space key rate n).0

    pub spent_all :
        (k : ℕ) (l : b.Ledger) (f : b.Ledger → List Fault)
        → spend b k l asked f ≡ f (after k l asked)
    unfolding spend after
    spent_all zero l f = refl
    spent_all (suc k) l f =
        taken l (λ m g. spend b k m asked f) ∙ spent_all k (b.take l none asked).0 f

    same_key : same space key space key ≡ true
    same_key = ground (arith, bytes_eq_refl space, bytes_eq_refl key)

    drawn :
        (l : b.Ledger)
        → h.spent (b.take l none asked).0 space key
          ≡ (if ltb (h.spent l space key) n then h.spent l space key + 1 else h.spent l space key)
    drawn l = ground (arith, same_key, h.draws l space key space key rate n)

    spent-after :
        (k : ℕ) (l : b.Ledger)
        → h.spent l space key ≤ n
        → h.spent (after k l asked) space key
          ≡ (if ltb (h.spent l space key + k) n then h.spent l space key + k else n)
    unfolding after
    spent-after zero l e = ground arith
    spent-after (suc k) l e = ground (arith, drawn l, spent-after k (b.take l none asked).0)

    pub untouched :
        (k : ℕ) (l : b.Ledger) (space' key' : Bytes)
        → same space key space' key' ≡ false
        → h.spent (after k l asked) space' key' ≡ h.spent l space' key'
    unfolding after
    untouched zero l space' key' e = refl
    untouched (suc k) l space' key' e =
        untouched k (b.take l none asked).0 space' key' e
        ∙ ground (arith, e, h.draws l space key space' key' rate n)

    pub granted_all :
        (k : ℕ) (l : b.Ledger) → h.spent l space key + k ≤ n → all_granted b k l asked ≡ []
    unfolding all_granted
    granted_all zero l e = refl
    granted_all (suc k) l e =
        taken l _
        ∙ ground (
          arith,
          drawn l,
          (h.answers l space key rate n).1,
          granted_all k (b.take l none asked).0,
        )

    pub refused_all :
        (k : ℕ) (l : b.Ledger) (f : b.Ledger → List Fault)
        → h.spent l space key ≡ n
        → none_granted_of b k l asked f ≡ f (after k l asked)
    unfolding none_granted_of after
    refused_all zero l f e = refl
    refused_all (suc k) l f e =
        taken l _
        ∙ ground (
          arith,
          drawn l,
          (h.answers l space key rate n).1,
          refused_all k (b.take l none asked).0 f,
        )

    pub raced :
        (k : ℕ) (l : b.Ledger)
        → h.spent l space key ≤ n
        → race b k l asked + h.spent l space key
          ≡ (if ltb (h.spent l space key + k) n then h.spent l space key + k else n)
    unfolding race
    raced zero l e = ground arith
    raced (suc k) l e =
        let (told, word) = h.answers l space key rate n in
        let one = ap (λ a. one_if b a) told in
        ground (arith, drawn l, one, word, raced k (b.take l none asked).0)

  module _ (space key : Bytes) where
    pub exhausted :
        (k n : ℕ) (rate : F)
        → n ≤ k
        → h.spent (after k b.new_quota (ask fl space key rate n)) space key ≡ n
    exhausted k n rate e =
        ground (arith, spent-after space key rate n k b.new_quota, h.fresh space key)

    -- The answer after a budget of n has been spent.
    pub refuses :
        (k n : ℕ) (rate : F)
        → n ≤ k
        → (h.grant
            (after k b.new_quota (ask fl space key rate n))
            (ask fl space key rate n)).granted
          ≡ false
    refuses k n rate e =
        let l = after k b.new_quota (ask fl space key rate n) in
        ground (arith, (h.answers l space key rate n).1, exhausted k n rate e)

  pub apart :
      (space key space' key' : Bytes)
      → same space key space' key' ≡ false
      → (h.grant
          (after 5 b.new_quota (ask fl space key (slow fl) 2))
          (ask fl space' key' (slow fl) 2)).granted
        ≡ true
  apart space key space' key' e =
      let l = after 5 b.new_quota (ask fl space key (slow fl) 2) in
      ground (
        arith,
        (h.answers l space' key' (slow fl) 2).1,
        h.fresh space' key',
        untouched space key (slow fl) 2 5 b.new_quota space' key' e,
      )
