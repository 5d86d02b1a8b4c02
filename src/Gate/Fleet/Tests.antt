-- ===== src/Gate/Fleet/Tests.antt =====
-- A fleet of replicas before one account that gains a token in ten nanoseconds.
use pace.Prelude.{
  ℕ, ◌+◌, ◌*◌, ◌-◌, ◌≤◌, ◌≡◌, refl, ◌&&◌, Bool, true, false, none, List, [], ◌∷◌, leb, arith,
  if◌then◌else◌,
}
use pace.Prelude.Int.{ℤ, pos, pos_part, ◌≤ℤ◌, ◌-ℤ◌, leb_ℤ}
use pace.Prelude.Bytes.{text, bytes_eq}
use pace.Breaker
use pace.Gate.{Gate, Spec, take, no_grant}
use pace.Gate.Fleet.{
  Backend, is_granted, draws_on, AccountLaws, Attempt, Fleet, passed, Ordered, AreRated,
}
use pace.Gate.Fleet.Bound.{passed_bound}
use pace.Shared.{deny, Answer, answered, broke}
use pace.Samples.{Num, whole}

-- The credit that was left after the last token, and when that was.
record Account : Type 0 where
  left : ℕ
  since : ℤ

abbrev credit : Account → ℤ → ℕ
credit l t = l.left + pos_part (t -ℤ l.since)

abbrev give : Bool → Bool → Account → ℤ → ℤ → Account × Answer Num
give true enough l t n = (l, broke (pos 7))
give false true l t n = (
  record { left = credit l t - 10 * pos_part n; since = t },
  answered (record { granted = true; retry_after = pos 0; remaining = none }),
)
give false false l t n = (l, answered no_grant)

-- One account for all keys, which breaks at instant 50.
abbrev account : Backend Num
account = record {
  Ledger = Account;
  ask = λ l t r. give (leb_ℤ (pos 50) t) (leb (10 * pos_part r.tokens) (credit l t)) l t r.tokens;
}

itself : (t : ℤ) → pos_part (t -ℤ t) ≡ 0
unfolding ◌-ℤ◌
itself t = ground arith

paid_for :
    (mine down enough : Bool) (l : Account) (t n : ℤ)
    → (enough ≡ true → 10 * pos_part n ≤ credit l t)
    → credit (give down enough l t n).0 t
        + (if mine && is_granted (give down enough l t n).1 then 10 * pos_part n else 0)
      ≤ credit l t
paid_for mine true enough l t n h = ground arith
paid_for mine false true l t n h = ground (arith, h, itself t)
paid_for mine false false l t n h = ground arith

gained : (l : Account) (t u : ℤ) → t ≤ℤ u → credit l u ≤ credit l t + 1 * pos_part (u -ℤ t)
unfolding ◌-ℤ◌
gained l t u h = ground (arith, h)

enough_credit : (l : Account) (t : ℤ) (n : ℕ) → leb n (credit l t) ≡ true → n ≤ credit l t
enough_credit l t n h = ground (arith, h)

abbrev account_laws : AccountLaws account (text "n") (text "k") (whole (pos 1)) (pos 1)
account_laws = record {
  unit = 10;
  gain = 1;
  held = λ l t. credit l t;
  held_later = λ l t u h. gained l t u h;
  held-ask = λ l t r h.
      paid_for (draws_on r (text "n") (text "k")) (leb_ℤ (pos 50) t)
        (leb (10 * pos_part r.tokens) (credit l t)) l t r.tokens
        (enough_credit l t (10 * pos_part r.tokens));
}

abbrev strict : Spec
strict = record { namespace = text "n"; timeout = pos 1; on_error = deny }

abbrev start : Gate
start = record { breaker = Breaker.fresh; takes = 0; refused = 0; failures = 0 }

abbrev fleet : Fleet account
fleet = record { gates = start ∷ start ∷ []; ledger = record { left = 12; since = pos 0 } }

abbrev try : ℕ → ℕ → Attempt Num
try replica at = record {
  replica = replica;
  key = text "k";
  rate = whole (pos 1);
  burst = pos 1;
  at = pos at;
  now = pos at;
  owner_done = false;
  caller_error = none;
  failed_at = pos at;
}

abbrev tries : List (Attempt Num)
tries = try 0 0 ∷ try 1 3 ∷ try 0 9 ∷ try 1 20 ∷ try 0 60 ∷ []

tries-Ordered : Ordered (pos 0) tries
tries-Ordered = (omega arith, (omega arith, (omega arith, (omega arith, (omega arith, tt)))))

own_rate :
    (e : bytes_eq (text "k") (text "k") ≡ true) → (whole (pos 1) ≡ whole (pos 1)) × (pos 1 ≡ pos 1)
own_rate e = (refl, refl)

tries-AreRated : AreRated (text "k") (whole (pos 1)) (pos 1) tries
tries-AreRated = (own_rate, (own_rate, (own_rate, (own_rate, (own_rate, tt)))))

three_pass : passed account strict (text "k") fleet tries ≡ 3
unfolding bytes_eq take Breaker.allow Breaker.succeeded ◌-ℤ◌
three_pass = refl

passed_bound_example :
    passed account strict (text "k") fleet tries * 10 ≤ 12 + 1 * pos_part (pos 60 -ℤ pos 0)
unfolding ◌-ℤ◌
passed_bound_example =
    passed_bound strict refl (text "k") (whole (pos 1)) (pos 1) account_laws fleet (pos 0) tries
      tries-Ordered tries-AreRated
