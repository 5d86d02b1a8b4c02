-- ===== src/Bucket/Parse/Sound.antt =====
-- What ParseLimit and ParseQuota of bucket/parse.go let through.
use mathlib.Core.List.{Perm}
use pace.Prelude.{
  ℕ, Bool, true, false, ◌&&◌, leb, some, ◌⊎◌, inl, inr, List, [], ◌∷◌, ◌≡◌, ◌≤◌, refl, sym, subst,
  arith, if◌then◌else◌, if-both, Option-cases, Bool-cases,
}
use pace.Prelude.Int.{ℤ, pos, ltb_ℤ}
use pace.Prelude.Bytes.{Bytes, text, bytes_eq}
use pace.Prelude.Assoc.{Assoc, lookup}
use pace.Float.{Float64, FloatLaws, zero_f, is_inf}
use pace.Bucket.{Quota, inf, finite}
use pace.Bucket.Parse.{
  ParsedFloat, parsed, out_of_range, bad_syntax, TextLib, BadLimit, units, cut, split, period,
  first_suffix, is_infinite, rate_of, parse_number, parse_squeezed, parse_limit, parse_quota, bad,
  too_large, no_number, unknown_period, no_period,
}
use pace.Bucket.Parse.Orders.{rp_keys, parse_limit-any_order}
use pace.Bucket.Parse.RoundTrip.{PeriodLaws}
use pace.Bucket.Parse.Spellings.{IsSuffix}
use pace.Urlx.{is_empty}

abbrev all_values : Assoc ℕ → Bool
all_values [] = true
all_values (e ∷ m) = leb 1 e.1 && all_values m

lookup-all_values :
    (k : Bytes) (v : ℕ) (m : Assoc ℕ) → all_values m ≡ true → lookup k m ≡ some v → 1 ≤ v
unfolding lookup
lookup-all_values k v [] a h = ground arith
lookup-all_values k v ((j, w) ∷ m) a h = ground (arith, lookup-all_values k v m)

period_positive : (unit : Bytes) (per : ℕ) → lookup unit units ≡ some per → 1 ≤ period unit
unfolding period
period_positive unit per h = ground (arith, lookup-all_values unit per units refl h)

-- The period that a rate is split into has a length.
abbrev Timed : Bytes → BadLimit ⊎ (Bytes × Bytes) → Type 0
Timed raw (inl e) = e.raw ≡ raw
Timed raw (inr p) = 1 ≤ period p.1

first_suffix_key : (s : Bytes) (p : Bytes × Bytes) → first_suffix rp_keys s ≡ some p → IsSuffix p.1
unfolding first_suffix
first_suffix_key s p h = ground arith

suffix_period : (k : Bytes) → IsSuffix k → 1 ≤ period k
unfolding period lookup bytes_eq
suffix_period k (inl e) =
    let h : 1 ≤ period (text "rps") = omega arith in subst (λ x. 1 ≤ period x) (sym e) h
suffix_period k (inr (inl e)) =
    let h : 1 ≤ period (text "rpm") = omega arith in subst (λ x. 1 ≤ period x) (sym e) h
suffix_period k (inr (inr e)) =
    let h : 1 ≤ period (text "rph") = omega arith in subst (λ x. 1 ≤ period x) (sym e) h

split-Timed : (s raw : Bytes) → Timed raw (split rp_keys s raw)
unfolding split
split-Timed s raw = elim (Option-cases (cut s)) [
  | inl e ↦ elim (Option-cases (first_suffix rp_keys s)) [
    | inl k ↦
        let q : split rp_keys s raw ≡ bad raw no_period = ground arith in
        subst (Timed raw) (sym q) refl
    | inr (p, k) ↦
        let q : split rp_keys s raw ≡ inr p = ground arith in
        subst (Timed raw) (sym q) (suffix_period p.1 (first_suffix_key s p k))
  ]
  | inr (p, e) ↦ elim (Option-cases (lookup p.1 units)) [
    | inl k ↦
        let q : split rp_keys s raw ≡ bad raw (unknown_period p.1) = ground arith in
        subst (Timed raw) (sym q) refl
    | inr (per, k) ↦
        let q : split rp_keys s raw ≡ inr (p.0, p.1) = ground arith in
        subst (Timed raw) (sym q) (period_positive p.1 per k)
  ]
]

module _ (fl : Float64) where
  open fl use {F, is_nan, is_pos_inf, is_neg_inf}

  -- A rate that arithmetic can work with.
  abbrev pub IsUsable : F → Type 0
  IsUsable l = (is_nan l ≡ false) × (is_pos_inf l ≡ false) × (is_neg_inf l ≡ false)

  abbrev pub IsRead : Bytes → BadLimit ⊎ F → Type 0
  IsRead raw (inl e) = e.raw ≡ raw
  IsRead raw (inr l) = IsUsable l

  abbrev pub IsPaired : Bytes → BadLimit ⊎ Quota F → Type 0
  IsPaired raw (inl e) = e.raw ≡ raw
  IsPaired raw (inr q) = IsUsable q.rate × (ltb_ℤ q.burst (pos 1) ≡ false)

module _ {fl : Float64} (laws : FloatLaws fl) (pl : PeriodLaws fl) (tl : TextLib fl) where
  open fl use {F, of_int, is_nan, is_pos_inf, is_neg_inf, div, le, lt}

  inf-IsUsable : IsUsable fl (inf fl)
  inf-IsUsable = (laws.max_float_not-nan, laws.max_float_not-pos_inf, laws.max_float_not-neg_inf)

  finite-IsUsable : (x : F) → is_nan x ≡ false → IsUsable fl (finite fl x)
  unfolding finite
  finite-IsUsable x h = elim (Bool-cases (is_inf fl x)) [
    | inl e ↦ rw e inf-IsUsable
    | inr e ↦ rw e (h, ground arith, ground arith)
  ]

  rate_of-IsRead :
      (raw unit : Bytes) (n : F) → 1 ≤ period unit → IsRead fl raw (rate_of tl raw unit n)
  unfolding rate_of
  rate_of-IsRead raw unit n h = elim (Bool-cases (is_nan n)) [
    | inl e ↦ rw e refl
    | inr e ↦ elim (Bool-cases (le n (zero_f fl))) [
      | inl g ↦ rw (e, g) refl
      | inr g ↦ elim (Bool-cases (is_pos_inf n)) [
        | inl f ↦ rw (e, g, f) inf-IsUsable
        | inr f ↦
            let above : lt (zero_f fl) n ≡ true =
              ground (arith, laws.le-or-lt n (zero_f fl) e laws.zero_not-nan) in
            rw (e, g, f)
              (finite-IsUsable (div n (of_int (pos (period unit)))) (pl.div-not_nan n _ h above f))
      ]
    ]
  ]

  parse_number-IsRead :
      (raw num unit : Bytes) → 1 ≤ period unit → IsRead fl raw (parse_number tl raw num unit)
  unfolding parse_number
  parse_number-IsRead raw num unit h = go (tl.parse_float num)
    where
      go :
          (r : ParsedFloat F)
          → IsRead fl raw (elim r [
            | out_of_range ↦ bad raw too_large
            | bad_syntax ↦ bad raw (no_number unit)
            | parsed n ↦ rate_of tl raw unit n
          ])
      go out_of_range = refl
      go bad_syntax = refl
      go (parsed n) = rate_of-IsRead raw unit n h

  parse_squeezed-IsRead : (raw s : Bytes) → IsRead fl raw (parse_squeezed tl rp_keys raw s)
  unfolding parse_squeezed
  parse_squeezed-IsRead raw s = if-both (IsRead fl raw) (is_empty s) _ _ refl (
      if-both (IsRead fl raw) (is_infinite s) _ _ inf-IsUsable
        (go (split rp_keys s raw) (split-Timed s raw)))
    where
      go :
          (r : BadLimit ⊎ (Bytes × Bytes))
          → Timed raw r
          → IsRead fl raw (elim r [ inl e ↦ inl e | inr p ↦ parse_number tl raw p.0 p.1 ])
      go (inl e) h = h
      go (inr p) h = parse_number-IsRead raw p.0 p.1 h

  parse_limit-IsRead :
      (order : List Bytes) (s : Bytes) → Perm rp_keys order → IsRead fl s (parse_limit tl order s)
  unfolding parse_limit
  parse_limit-IsRead order s p =
      subst (IsRead fl s) (parse_limit-any_order tl order s p) (parse_squeezed-IsRead s _)

  -- What ParseQuota returns without an error has a rate that is neither a NaN nor infinite and a burst
  -- of one or more; an error quotes the text that was given.
  pub parse_quota-IsPaired :
      (order : List Bytes) (s : Bytes) (burst : ℤ)
      → Perm rp_keys order
      → IsPaired fl s (parse_quota tl order s burst)
  unfolding parse_quota
  parse_quota-IsPaired order s burst p = go (parse_limit tl order s) (parse_limit-IsRead order s p)
    where
      go :
          (r : BadLimit ⊎ F)
          → IsRead fl s r
          → IsPaired fl s (elim r [
            | inl e ↦ inl e
            | inr l ↦
                inr (record { rate = l; burst = if ltb_ℤ burst (pos 1) then pos 1 else burst })
          ])
      go (inl e) h = h
      go (inr l) h = (h, ground arith)
