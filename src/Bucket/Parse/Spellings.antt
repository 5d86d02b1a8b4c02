-- ===== src/Bucket/Parse/Spellings.antt =====
-- The pieces of a written rate, for bucket/parse.go: the number, the period, and what separates them.
use pace.Prelude.{
  ℕ, Bool, true, ◌&&◌, not, ◌==◌, leb, none, some, [], ◌∷◌, ◌++◌, map, if◌then◌else◌, ◌≡◌, ◌≢◌,
  refl, sym, ap, ◌∙◌, arith, length, Option-cases, length-append, ◌+◌, ◌⊎◌, inl, inr,
}
use pace.Prelude.Bytes.{Bytes, text, bytes_eq_iff}
use pace.Prelude.Assoc.{Assoc, lookup}
use pace.Bucket.Parse.{cut, cut_suffix, units, rp_units}
use pace.Urlx.{slash}

-- A byte of printable ASCII that is no capital.
abbrev pub plain_byte : ℕ → Bool
plain_byte b = leb 33 b && leb b 126 && not (leb 65 b && leb b 90)

abbrev pub plain : Bytes → Bool
plain [] = true
plain (b ∷ bs) = plain_byte b && plain bs

-- A byte of printable ASCII but the space.
abbrev pub visible : Bytes → Bool
visible [] = true
visible (b ∷ bs) = leb 33 b && leb b 126 && visible bs

abbrev pub lower_byte : ℕ → ℕ
lower_byte b = if leb 65 b && leb b 90 then b + 32 else b

pub plain-visible : (s : Bytes) → plain s ≡ true → visible s ≡ true
plain-visible [] h = refl
plain-visible (b ∷ bs) h = ground (arith, plain-visible bs)

pub lower_byte-plain : (s : Bytes) → plain s ≡ true → map lower_byte s ≡ s
lower_byte-plain [] h = refl
lower_byte-plain (b ∷ bs) h = ground (arith, lower_byte-plain bs)

abbrev pub no_slash : Bytes → Bool
no_slash [] = true
no_slash (b ∷ bs) = not (b == slash) && no_slash bs

pub plain-append : (a b : Bytes) → plain a ≡ true → plain b ≡ true → plain (a ++ b) ≡ true
plain-append [] b h k = k
plain-append (x ∷ xs) b h k = ground (arith, plain-append xs b)

pub cut-append :
    (num unit : Bytes) → no_slash num ≡ true → cut (num ++ slash ∷ unit) ≡ some (num, unit)
unfolding cut
cut-append [] unit h = ground arith
cut-append (b ∷ bs) unit h = ground (arith, cut-append bs unit)

pub cut-none : (s : Bytes) → no_slash s ≡ true → cut s ≡ none
unfolding cut
cut-none [] h = refl
cut-none (b ∷ bs) h = ground (arith, cut-none bs)

pub no_slash-append :
    (a b : Bytes) → no_slash a ≡ true → no_slash b ≡ true → no_slash (a ++ b) ≡ true
no_slash-append [] b h k = k
no_slash-append (x ∷ xs) b h k = ground (arith, no_slash-append xs b)

longer : (b : ℕ) (r suffix : Bytes) → b ∷ (r ++ suffix) ≢ suffix
longer b r suffix h = let e = ap length h in omega (arith, e, length-append r suffix)

pub cut_suffix-append : (r suffix : Bytes) → cut_suffix (r ++ suffix) suffix ≡ some r
unfolding cut_suffix
cut_suffix-append [] [] = ground (arith, bytes_eq_iff [] [])
cut_suffix-append [] (b ∷ bs) = ground (arith, bytes_eq_iff (b ∷ bs) (b ∷ bs))
cut_suffix-append (b ∷ bs) suffix = ground (
  arith,
  longer b bs suffix,
  bytes_eq_iff (b ∷ (bs ++ suffix)) suffix,
  cut_suffix-append bs suffix,
)

pub cut_suffix_lem : (s suffix r : Bytes) → cut_suffix s suffix ≡ some r → s ≡ r ++ suffix
unfolding cut_suffix
cut_suffix_lem [] suffix r h = ground (arith, bytes_eq_iff [] suffix)
cut_suffix_lem (b ∷ bs) suffix r h = elim (Option-cases (cut_suffix bs suffix)) [
  | inl e ↦ ground (arith, bytes_eq_iff (b ∷ bs) suffix)
  | inr (q, e) ↦ ground (arith, bytes_eq_iff (b ∷ bs) suffix, cut_suffix_lem bs suffix q e)
]

abbrev all_keys : (Bytes → Bool) → Assoc ℕ → Bool
all_keys p [] = true
all_keys p (e ∷ m) = p e.0 && all_keys p m

pub lookup-all_keys :
    (p : Bytes → Bool) (k : Bytes) (v : ℕ) (m : Assoc ℕ)
    → all_keys p m ≡ true
    → lookup k m ≡ some v
    → p k ≡ true
unfolding lookup
lookup-all_keys p k v [] a h = ground arith
lookup-all_keys p k v ((j, w) ∷ m) a h = ground (arith, bytes_eq_iff j k, lookup-all_keys p k v m)

pub units-plain : (u : Bytes) (per : ℕ) → lookup u units ≡ some per → plain u ≡ true
units-plain u per = lookup-all_keys plain u per units refl

pub units-no_slash : (u : Bytes) (per : ℕ) → lookup u units ≡ some per → no_slash u ≡ true
units-no_slash u per = lookup-all_keys no_slash u per units refl

pub rp_units-plain : (u : Bytes) (per : ℕ) → lookup u rp_units ≡ some per → plain u ≡ true
rp_units-plain u per = lookup-all_keys plain u per rp_units refl

pub rp_units-no_slash : (u : Bytes) (per : ℕ) → lookup u rp_units ≡ some per → no_slash u ≡ true
rp_units-no_slash u per = lookup-all_keys no_slash u per rp_units refl

-- The last byte, which tells the three suffixes of rpUnits apart.
abbrev last_byte : Bytes → ℕ
last_byte [] = 0
last_byte (b ∷ []) = b
last_byte (b ∷ c ∷ bs) = last_byte (c ∷ bs)

last_byte-append : (r : Bytes) (a b c : ℕ) → last_byte (r ++ a ∷ b ∷ c ∷ []) ≡ c
last_byte-append [] a b c = refl
last_byte-append (x ∷ []) a b c = refl
last_byte-append (x ∷ y ∷ r) a b c = last_byte-append (y ∷ r) a b c

-- A key of rpUnits.
abbrev pub IsSuffix : Bytes → Type 0
IsSuffix k = (k ≡ text "rps") ⊎ (k ≡ text "rpm") ⊎ (k ≡ text "rph")

last_byte-suffix : (r k : Bytes) → IsSuffix k → last_byte (r ++ k) ≡ last_byte k
last_byte-suffix r k (inl e) = rw e (last_byte-append r _ _ _)
last_byte-suffix r k (inr (inl e)) = rw e (last_byte-append r _ _ _)
last_byte-suffix r k (inr (inr e)) = rw e (last_byte-append r _ _ _)

suffix_of_last : (j k : Bytes) → IsSuffix j → IsSuffix k → last_byte j ≡ last_byte k → j ≡ k
suffix_of_last j k a b h = ground arith

pub suffix_unique :
    (s j k q r : Bytes)
    → IsSuffix j
    → IsSuffix k
    → cut_suffix s j ≡ some q
    → cut_suffix s k ≡ some r
    → j ≡ k
suffix_unique s j k q r a b h i = suffix_of_last j k a b (
    sym (last_byte-suffix q j a)
    ∙ ap last_byte (sym (cut_suffix_lem s j q h) ∙ cut_suffix_lem s k r i)
    ∙ last_byte-suffix r k b)
