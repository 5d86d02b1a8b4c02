-- ===== src/Bucket/Parse/Orders.antt =====
-- The range of bucket/parse.go over the map rpUnits, whose order Go leaves open.

use mathlib.Core.List.{Perm, Permᴰ}
use pace.Prelude.{
  Option, List, [], ◌∷◌, ◌≡◌, refl, sym, subst, ◌∙◌, inl, inr, All, arith, Option-cases,
}
use pace.Prelude.Bytes.{Bytes, text}
use pace.Float.{Float64}
use pace.Bucket.Parse.{
  TextLib, concat, cut_suffix, first_suffix, split, parse_squeezed, parse_limit,
}
use pace.Bucket.Parse.Spellings.{IsSuffix, suffix_unique}

abbrev pub rp_keys : List Bytes
rp_keys = text "rps" ∷ text "rpm" ∷ text "rph" ∷ []

All-perm : {ks js : List Bytes} → Permᴰ ks js → All IsSuffix ks → All IsSuffix js
All-perm Permᴰ.nil a = a
All-perm (Permᴰ.cons e p) a = (subst IsSuffix e a.0, All-perm p a.1)
All-perm (Permᴰ.swap e f) a = (subst IsSuffix f a.1.0, (subst IsSuffix e a.0, a.1.1))
All-perm (Permᴰ.trans p q) a = All-perm q (All-perm p a)

first_suffix-swap :
    (a b : Bytes) (ks : List Bytes) (s : Bytes)
    → IsSuffix a
    → IsSuffix b
    → first_suffix (a ∷ b ∷ ks) s ≡ first_suffix (b ∷ a ∷ ks) s
unfolding first_suffix
first_suffix-swap a b ks s h k = elim (Option-cases (cut_suffix s a)) [
  | inl e ↦ ground arith
  | inr (q, e) ↦ elim (Option-cases (cut_suffix s b)) [
    | inl f ↦ ground arith
    | inr (r, f) ↦ ground (arith, suffix_unique s a b q r h k e f)
  ]
]

first_suffix-perm :
    {ks js : List Bytes} (s : Bytes)
    → Permᴰ ks js
    → All IsSuffix ks
    → first_suffix ks s ≡ first_suffix js s
unfolding first_suffix
first_suffix-perm s Permᴰ.nil a = refl
first_suffix-perm s (Permᴰ.cons e p) a = ground (arith, first_suffix-perm s p a.1)
first_suffix-perm s (Permᴰ.swap {a} {b} {l = l} e f) h =
    rw (sym e, sym f) (first_suffix-swap a b l s h.0 h.1.0)
first_suffix-perm s (Permᴰ.trans p q) a =
    first_suffix-perm s p a ∙ first_suffix-perm s q (All-perm p a)

IsSuffix-rp_keys : All IsSuffix rp_keys
IsSuffix-rp_keys = (inl refl, (inr (inl refl), (inr (inr refl), tt)))

found_set : IsSet (Option (Bytes × Bytes))
found_set = hlevel

first_suffix-any_order :
    (ks : List Bytes) (s : Bytes) → Perm rp_keys ks → first_suffix rp_keys s ≡ first_suffix ks s
first_suffix-any_order ks s p =
    ∥∥₁_rec (found_set _ _) (λ d. first_suffix-perm s d IsSuffix-rp_keys) p

split-any_order :
    (order : List Bytes) (s raw : Bytes)
    → Perm rp_keys order
    → split rp_keys s raw ≡ split order s raw
unfolding split
split-any_order order s raw p = ground (arith, first_suffix-any_order order s p)

module _ {fl : Float64} (tl : TextLib fl) where
  -- ParseLimit gives the same answer in whatever order the runtime takes the keys of rpUnits: no text
  -- ends in two of them.
  pub parse_limit-any_order :
      (order : List Bytes) (s : Bytes)
      → Perm rp_keys order
      → parse_limit tl rp_keys s ≡ parse_limit tl order s
  unfolding parse_limit parse_squeezed
  parse_limit-any_order order s p =
      ground (arith, split-any_order order (tl.lower (concat (tl.fields s))) s p)
