-- ===== src/Gate/Fleet/Bound.antt =====
-- The bound that a shared backend puts on a fleet under Deny.
use pace.Prelude.{
  ℕ, ◌+◌, ◌*◌, ◌≤◌, ◌≡◌, ◌&&◌, Bool, true, false, List, [], ◌∷◌, arith, if◌then◌else◌,
}
use pace.Prelude.Int.{ℤ, pos_part, ◌≤ℤ◌, ◌-ℤ◌}
use pace.Prelude.Bytes.{Bytes, bytes_eq, bytes_eq_refl}
use pace.Prelude.Credit.{elapsed, token, add_own}
use pace.Breaker
use pace.Gate.{Gate, Spec, Outside, take, request, on_unavailable}
use pace.Gate.Fleet.{
  Backend, is_granted, AccountLaws, Attempt, Fleet, outside, gate_of, proceeds, attempt, passed,
  Ordered, end_of,
}
use pace.Gate.Fleet.{AreRated}
use pace.Shared.{deny}

mine : (same own : Bool) → (same && own) ≡ true → own ≡ true
mine same own h = ground (arith, h)

module _ {F : Type 0} {b : Backend F} (s : Spec) (d : s.on_error ≡ deny) (key : Bytes) (rate : F)
    (burst : ℤ) (laws : AccountLaws b s.namespace key rate burst) where
  open laws use {unit, gain, held}

  -- A call that proceeds was allowed by the breaker, and the backend granted it.
  take_granted :
      (g : Gate) (k : Bytes) (q : F) (n : ℤ) (o : Outside F)
      → (take s g k q n o).1.proceed ≡ true
      → ((Breaker.allow g.breaker o.now).1 ≡ true)
        × (is_granted (o.answer (request s k q n)) ≡ true)
  unfolding take on_unavailable
  take_granted g k q n o h = ground arith

  -- What an attempt costs, by whether it asks the backend, whether it is for the key and whether it
  -- proceeds.
  charge :
      {L : Type 0} (credit : L → ℕ) (l l' : L) (asks granted same mine proceeds : Bool)
      → same ≡ true
      → (proceeds ≡ true → (asks ≡ true) × (granted ≡ true))
      → credit l' + (if (same && mine) && granted then unit * 1 else 0) ≤ credit l
      → credit (if asks then l' else l) + (if mine && proceeds then unit else 0) ≤ credit l
  charge credit l l' true granted same mine proceeds e p le = ground (arith, p)
  charge credit l l' false granted same mine proceeds e p le = ground (arith, p)

  paid :
      (f : Fleet b) (a : Attempt F)
      → (bytes_eq a.key key ≡ true → (a.rate ≡ rate) × (a.burst ≡ burst))
      → held (attempt b s f a).ledger a.at
          + (if bytes_eq a.key key && proceeds b s f a then unit else 0)
        ≤ held f.ledger a.at
  unfolding request
  paid f a m =
      let g = gate_of b f a in
      let o = outside b f.ledger a in
      let r = request s a.key a.rate a.burst in
      charge (λ l. held l a.at) f.ledger _ (Breaker.allow g.breaker a.now).1
        (is_granted (o.answer r)) (bytes_eq s.namespace s.namespace) (bytes_eq a.key key)
        (proceeds b s f a) (bytes_eq_refl s.namespace) (take_granted g a.key a.rate a.burst o)
        (laws.held-ask f.ledger a.at r (λ e.
          let own = m (mine (bytes_eq s.namespace s.namespace) (bytes_eq a.key key) e) in
          (own.0, (own.1, omega arith))))

  end_of-late : (t : ℤ) (tries : List (Attempt F)) → Ordered t tries → t ≤ℤ end_of t tries
  end_of-late t [] h = omega arith
  end_of-late t (a ∷ tries) h = omega (arith, h.0, end_of-late a.at tries h.1)

  -- Under Deny, the attempts that a fleet of replicas lets through for a key of its namespace cost
  -- no more than the credit that the shared backend holds for the key at the start, with what the
  -- key gains until the last attempt. It holds whatever state the replicas' gates are in, whatever
  -- fails or is cancelled and whatever is asked for other keys, while the replicas use one rate and
  -- burst for the key, the backend keeps its account of it and its clock does not go back.
  pub passed_bound :
      (f : Fleet b) (t : ℤ) (tries : List (Attempt F))
      → Ordered t tries
      → AreRated key rate burst tries
      → passed b s key f tries * unit ≤ held f.ledger t + gain * pos_part (end_of t tries -ℤ t)
  passed_bound f t [] h k = omega arith
  passed_bound f t (a ∷ tries) h k =
      let through = bytes_eq a.key key && proceeds b s f a in
      let next = attempt b s f a in
      let spent = paid f a k.0 in
      let later = laws.held_later f.ledger t a.at h.0 in
      add_own (if through then 1 else 0) (passed b s key next tries) unit _ (held next.ledger a.at)
        (held f.ledger t) _ _ _ (token through unit) (omega (arith, spent, later))
        (passed_bound next a.at tries h.1 k.1)
        (elapsed gain t a.at (end_of a.at tries) h.0 (end_of-late a.at tries h.1))
