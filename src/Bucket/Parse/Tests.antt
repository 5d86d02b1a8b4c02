-- ===== src/Bucket/Parse/Tests.antt =====
-- Rates written as text, at fixed inputs. A number is written as a tally of ones here.

use mathlib.Core.List.Perm
use pace.Prelude.{
  ℕ, true, false, ◌==◌, leb, Option, none, some, inr, List, [], ◌∷◌, map, ◌≡◌, ◌≤◌, refl, arith,
  suc, zero, if◌then◌else◌, replicate, ◌&&◌, ◌*◌,
}
use pace.Prelude.Int.{pos, negsuc}
use pace.Prelude.Bytes.{Bytes, text, bytes_eq}
use pace.Prelude.Assoc.{lookup}
use pace.Bucket.{finite}
use pace.Bucket.Parse.{
  ParsedFloat, parsed, parse_squeezed, split, cut, cut_suffix, first_suffix, parse_number, rate_of,
  period, bad_syntax, TextLib, bad, unknown_period, no_period, parse_limit, parse_quota,
  limit_string, new_limit,
}
use pace.Bucket.Parse.Orders.{rp_keys, parse_limit-any_order}
use pace.Bucket.Parse.RoundTrip.{TextLaws, PeriodLaws, reread, parse_limit-limit_string}
use pace.Bucket.Parse.Sound.{IsPaired, parse_quota-IsPaired}
use pace.Bucket.Parse.Spellings.{visible, lower_byte, plain, no_slash}
use pace.Samples.{Num, whole, floats, float_laws}

abbrev one : ℕ
one = 49

abbrev count : Bytes → Option ℕ
count [] = some 0
count (b ∷ bs) =
    let rest = count bs in
    if b == one then elim rest [ none ↦ none | some n ↦ some (suc n) ] else none

abbrev parse_tally : Bytes → ParsedFloat Num
parse_tally [] = bad_syntax
parse_tally (b ∷ bs) = elim (count (b ∷ bs)) [ none ↦ bad_syntax | some n ↦ parsed (whole (pos n)) ]

abbrev tally : Num → Bytes
tally (whole (pos n)) = replicate n one
tally _ = []

-- Fields that are parted by bytes up to the space; `f` is the one that is open.
abbrev close : Bytes → List Bytes → List Bytes
close [] fs = fs
close (b ∷ bs) fs = (b ∷ bs) ∷ fs

abbrev push : ℕ → List Bytes → List Bytes
push b [] = (b ∷ []) ∷ []
push b (f ∷ fs) = (b ∷ f) ∷ fs

abbrev spread : Bytes → List Bytes
spread [] = [] ∷ []
spread (b ∷ bs) = let rest = spread bs in if leb b 32 then [] ∷ rest else push b rest

abbrev non_empty : List Bytes → List Bytes
non_empty [] = []
non_empty (f ∷ fs) = close f (non_empty fs)

abbrev texts : TextLib floats
texts = record {
  lower = map lower_byte;
  fields = λ s. non_empty (spread s);
  parse_float = parse_tally;
  fmt_rate = tally;
}

spread-visible : (s : Bytes) → visible s ≡ true → spread s ≡ s ∷ []
spread-visible [] h = refl
spread-visible (b ∷ bs) h = ground (arith, spread-visible bs)

fields_visible' :
    (b : ℕ) (s : Bytes) → visible (b ∷ s) ≡ true → non_empty (spread (b ∷ s)) ≡ (b ∷ s) ∷ []
fields_visible' b s h = rw (spread-visible (b ∷ s) h) refl

count_ones : (n : ℕ) → count (replicate n one) ≡ some n
count_ones zero = refl
count_ones (suc n) = ground (arith, count_ones n)

plain_ones : (n : ℕ) → (plain (replicate n one) && no_slash (replicate n one)) ≡ true
plain_ones zero = refl
plain_ones (suc n) = ground (arith, plain_ones n)

text_laws : TextLaws texts
text_laws = record {
  lower_visible = λ s h. refl;
  fields_visible = fields_visible';
  fmt_rate_plain = fmt_plain;
  parse_float-fmt_rate = fmt_back;
}
  where
    fmt_plain :
        (x : Num)
        → floats.lt (whole (pos 0)) x ≡ true
        → floats.is_pos_inf x ≡ false
        → (plain (tally x) && no_slash (tally x)) ≡ true
    fmt_plain (whole (pos n)) h f = plain_ones n
    fmt_plain (whole (negsuc n)) h f = refl
    fmt_plain x h f = ground arith

    fmt_back :
        (x : Num)
        → floats.lt (whole (pos 0)) x ≡ true
        → floats.is_pos_inf x ≡ false
        → parse_tally (tally x) ≡ parsed x
    fmt_back (whole (pos zero)) h f = ground arith
    fmt_back (whole (pos (suc n))) h f = ground (arith, count_ones (suc n))
    fmt_back x h f = ground arith

period_laws : PeriodLaws floats
period_laws = record { div_one = once; mul-positive = up; mul-finite = small; div-not_nan = down }
  where
    once :
        (x : Num)
        → floats.lt (whole (pos 0)) x ≡ true
        → floats.is_pos_inf x ≡ false
        → floats.div x (whole (pos 1)) ≡ x
    once (whole (pos n)) h f = ground arith
    once (whole (negsuc n)) h f = ground arith
    once x h f = ground arith

    up :
        (x : Num) (per : ℕ)
        → 1 ≤ per
        → floats.lt (whole (pos 0)) x ≡ true
        → floats.is_pos_inf x ≡ false
        → floats.lt (whole (pos 0)) (floats.mul x (whole (pos per))) ≡ true
    up (whole (pos n)) per k h f = let m : 1 ≤ n * per = grind arith in ground (arith, m)
    up (whole (negsuc n)) per k h f = ground arith
    up x per k h f = ground arith

    small :
        (x : Num) (per : ℕ)
        → per ≤ 3600
        → floats.le (whole (pos 1)) x ≡ false
        → floats.lt (whole (pos 0)) x ≡ true
        → floats.is_pos_inf (floats.mul x (whole (pos per))) ≡ false
    small (whole n) per k h f = refl
    small x per k h f = ground arith

    down :
        (x : Num) (per : ℕ)
        → 1 ≤ per
        → floats.lt (whole (pos 0)) x ≡ true
        → floats.is_pos_inf x ≡ false
        → floats.is_nan (floats.div x (whole (pos per))) ≡ false
    down (whole n) per k h f = refl
    down x per k h f = ground arith

spelled : parse_limit texts rp_keys (text " 11 / Min ") ≡ inr (whole (pos 0))
unfolding parse_limit parse_squeezed bytes_eq split cut lookup parse_number rate_of finite period
spelled = refl

joined : new_limit texts rp_keys (text "11 RPS") ≡ some (whole (pos 2))
unfolding new_limit parse_limit parse_squeezed bytes_eq split cut first_suffix cut_suffix
    parse_number rate_of finite period lookup
joined = refl

wrong_period :
    parse_limit texts rp_keys (text "1/ms") ≡ bad (text "1/ms") (unknown_period (text "ms"))
unfolding parse_limit parse_squeezed bytes_eq split cut lookup
wrong_period = refl

-- The rate 0 is printed as "0", which ParseLimit refuses.
zero_refused :
    parse_limit texts rp_keys (limit_string texts (whole (pos 0))) ≡ bad (text "0") no_period
unfolding parse_limit limit_string parse_squeezed bytes_eq split cut first_suffix cut_suffix
zero_refused = refl

parse_limit-any_order_example :
    parse_limit texts rp_keys (text "1rpm")
    ≡ parse_limit texts (text "rpm" ∷ text "rps" ∷ text "rph" ∷ []) (text "1rpm")
parse_limit-any_order_example =
    parse_limit-any_order texts (text "rpm" ∷ text "rps" ∷ text "rph" ∷ []) (text "1rpm")
      (Perm.swap _ _ _)

parse_limit-limit_string_example :
    parse_limit texts rp_keys (limit_string texts (whole (pos 3)))
    ≡ inr (reread floats (whole (pos 3)))
parse_limit-limit_string_example =
    parse_limit-limit_string float_laws period_laws texts text_laws rp_keys (whole (pos 3)) refl
      refl

parse_quota-IsPaired_example :
    IsPaired floats (text "1111rps") (parse_quota texts rp_keys (text "1111rps") (pos 0))
parse_quota-IsPaired_example =
    parse_quota-IsPaired float_laws period_laws texts rp_keys (text "1111rps") (pos 0) (Perm.refl _)
