-- ===== src/Bucket/Parse/RoundTrip.antt =====
-- What ParseLimit of bucket/parse.go reads back of a number and a period, and of Limit.String.
use mathlib.Core.List.{append-nil}
use pace.Prelude.{
  ℕ, Bool, true, false, ◌&&◌, some, inr, List, [], ◌∷◌, ◌++◌, map, ◌≡◌, ◌≤◌, refl, ap, ◌∙◌, arith,
  if◌then◌else◌,
}
use pace.Prelude.Int.{pos}
use pace.Prelude.Bytes.{Bytes, text, bytes_eq, bytes_eq_iff}
use pace.Prelude.Assoc.{lookup}
use pace.Float.{Float64, FloatLaws, zero_f, one_f}
use pace.Bucket.{inf, finite}
use pace.Urlx.{slash, is_empty}
use pace.Bucket.Parse.{
  parsed, TextLib, units, concat, split, period, is_infinite, rate_of, parse_number, parse_squeezed,
  parse_limit, limit_string,
}
use pace.Bucket.Parse.Spellings.{
  plain, visible, lower_byte, plain-visible, lower_byte-plain, no_slash, plain-append, cut-append,
  units-plain,
}

-- What the documentation of strings and strconv says, as far as theorems rely on it.
pub record TextLaws {fl : Float64} (tl : TextLib fl) : Type 0 where
  -- Printable ASCII without spaces is one field, and its letters have their lower case.
  pub lower_visible : (s : Bytes) → visible s ≡ true → tl.lower s ≡ map lower_byte s
  pub fields_visible :
      (b : ℕ) (s : Bytes) → visible (b ∷ s) ≡ true → tl.fields (b ∷ s) ≡ (b ∷ s) ∷ []
  -- What 'g' prints of a positive number, and that it is read back without loss.
  pub fmt_rate_plain :
      (x : fl.F)
      → fl.lt (zero_f fl) x ≡ true
      → fl.is_pos_inf x ≡ false
      → (plain (tl.fmt_rate x) && no_slash (tl.fmt_rate x)) ≡ true
  pub parse_float-fmt_rate :
      (x : fl.F)
      → fl.lt (zero_f fl) x ≡ true
      → fl.is_pos_inf x ≡ false
      → tl.parse_float (tl.fmt_rate x) ≡ parsed x

-- What IEEE 754 says of a rate and the length of a period.
pub record PeriodLaws (fl : Float64) : Type 0 where
  pub div_one :
      (x : fl.F) → fl.lt (zero_f fl) x ≡ true → fl.is_pos_inf x ≡ false → fl.div x (one_f fl) ≡ x
  pub mul-positive :
      (x : fl.F) (per : ℕ)
      → 1 ≤ per
      → fl.lt (zero_f fl) x ≡ true
      → fl.is_pos_inf x ≡ false
      → fl.lt (zero_f fl) (fl.mul x (fl.of_int (pos per))) ≡ true
  -- Below one a rate stays finite in every period.
  pub mul-finite :
      (x : fl.F) (per : ℕ)
      → per ≤ 3600
      → fl.le (one_f fl) x ≡ false
      → fl.lt (zero_f fl) x ≡ true
      → fl.is_pos_inf (fl.mul x (fl.of_int (pos per))) ≡ false
  pub div-not_nan :
      (x : fl.F) (per : ℕ)
      → 1 ≤ per
      → fl.lt (zero_f fl) x ≡ true
      → fl.is_pos_inf x ≡ false
      → fl.is_nan (fl.div x (fl.of_int (pos per))) ≡ false

squeezed :
    {fl : Float64} (tl : TextLib fl) (tw : TextLaws tl) (s : Bytes)
    → plain s ≡ true
    → is_empty s ≡ false
    → tl.lower (concat (tl.fields s)) ≡ s
squeezed tl tw [] p e = ground arith
squeezed tl tw (b ∷ s) p e =
    let seen = plain-visible (b ∷ s) p in
    rw (tw.fields_visible b s seen, append-nil)
      (tw.lower_visible (b ∷ s) seen ∙ lower_byte-plain (b ∷ s) p)

no_slash-joined : (num unit : Bytes) → no_slash (num ++ slash ∷ unit) ≡ false
no_slash-joined [] unit = refl
no_slash-joined (b ∷ bs) unit = ground (arith, no_slash-joined bs unit)

slash_apart : (s word : Bytes) → no_slash s ≡ false → no_slash word ≡ true → bytes_eq s word ≡ false
slash_apart s word h k = ground (arith, bytes_eq_iff s word)

-- A text with a slash is none of the words for the infinite rate.
slash-not_infinite : (s : Bytes) → no_slash s ≡ false → is_infinite s ≡ false
slash-not_infinite s h =
    rw
      (
        slash_apart s (text "inf") h refl,
        slash_apart s (text "infinite") h refl,
        slash_apart s (text "unlimited") h refl,
      )
      refl

joined-not_empty : (num unit : Bytes) → is_empty (num ++ slash ∷ unit) ≡ false
joined-not_empty [] unit = refl
joined-not_empty (b ∷ bs) unit = refl

split-slash :
    (order : List Bytes) (num unit raw : Bytes) (per : ℕ)
    → no_slash num ≡ true
    → lookup unit units ≡ some per
    → split order (num ++ slash ∷ unit) raw ≡ inr (num, unit)
unfolding split
split-slash order num unit raw per h k = ground (arith, cut-append num unit h)

period-units : (unit : Bytes) (per : ℕ) → lookup unit units ≡ some per → period unit ≡ per
unfolding period
period-units unit per k = ground arith

pub not_nan :
    {fl : Float64} (laws : FloatLaws fl) (x : fl.F)
    → fl.lt (zero_f fl) x ≡ true
    → fl.is_nan x ≡ false
not_nan {fl} laws x h = ground (arith, laws.lt-nan (zero_f fl) x)

-- The rate of n per `per` seconds.
abbrev pub rate_per : (fl : Float64) → fl.F → ℕ → fl.F
rate_per fl n per = if fl.is_pos_inf n then inf fl else finite fl (fl.div n (fl.of_int (pos per)))

module _ {fl : Float64} (tl : TextLib fl) where
  open fl use {F, of_int, is_nan, is_pos_inf, le, lt, eq, mul, div}

  squeezed-slash :
      (order : List Bytes) (num unit raw : Bytes) (per : ℕ)
      → no_slash num ≡ true
      → lookup unit units ≡ some per
      → parse_squeezed tl order raw (num ++ slash ∷ unit) ≡ parse_number tl raw num unit
  unfolding parse_squeezed
  squeezed-slash order num unit raw per h k =
      rw
        (
          joined-not_empty num unit,
          slash-not_infinite _ (no_slash-joined num unit),
          split-slash order num unit raw per h k,
        )
        refl

  rate_of-positive :
      (laws : FloatLaws fl) (raw unit : Bytes) (per : ℕ) (n : F)
      → lookup unit units ≡ some per
      → lt (zero_f fl) n ≡ true
      → rate_of tl raw unit n ≡ inr (rate_per fl n per)
  unfolding rate_of
  rate_of-positive laws raw unit per n k h =
      let sound = not_nan laws n h in
      let above = laws.le-or-lt n (zero_f fl) sound laws.zero_not-nan in
      ground (arith, period-units unit per k)

  parse_number_lem :
      (laws : FloatLaws fl) (raw num unit : Bytes) (per : ℕ) (n : F)
      → tl.parse_float num ≡ parsed n
      → lt (zero_f fl) n ≡ true
      → lookup unit units ≡ some per
      → parse_number tl raw num unit ≡ inr (rate_per fl n per)
  unfolding parse_number
  parse_number_lem laws raw num unit per n e h k =
      ground (arith, rate_of-positive laws raw unit per n k h)

&&-left : (a b : Bool) → (a && b) ≡ true → a ≡ true
&&-left a b h = ground arith

&&-right : (a b : Bool) → (a && b) ≡ true → b ≡ true
&&-right a b h = ground arith

module _ {fl : Float64} (laws : FloatLaws fl) (tl : TextLib fl) (tw : TextLaws tl) where
  open fl use {F, of_int, is_nan, is_pos_inf, le, lt, eq, mul, div}

  -- ParseLimit reads a positive number in front of a slash and any spelling of a period as that many
  -- requests in that many seconds, whatever the spelling.
  pub parse_limit-slash :
      (order : List Bytes) (num unit : Bytes) (per : ℕ) (n : F)
      → (plain num && no_slash num) ≡ true
      → tl.parse_float num ≡ parsed n
      → lt (zero_f fl) n ≡ true
      → lookup unit units ≡ some per
      → parse_limit tl order (num ++ slash ∷ unit) ≡ inr (rate_per fl n per)
  unfolding parse_limit
  parse_limit-slash order num unit per n h e p k =
      let raw = num ++ slash ∷ unit in
      let plain_raw =
        plain-append num (slash ∷ unit) (&&-left _ _ h)
          (plain-append (slash ∷ []) unit refl (units-plain unit per k)) in
      let number = parse_number_lem tl laws raw num unit per n e p k in
      ap (parse_squeezed tl order raw) (squeezed tl tw raw plain_raw (joined-not_empty num unit))
      ∙ squeezed-slash tl order num unit raw per (&&-right _ _ h) k
      ∙ number

-- The rate that is left of `l` after a multiplication by the length of a period and a division.
abbrev pub reread : (fl : Float64) → fl.F → fl.F
reread fl l =
    if fl.eq l (inf fl)
    then inf fl
    else if fl.le (one_f fl) l
    then l
    else if fl.le (one_f fl) (fl.mul l (fl.of_int (pos 60)))
    then finite fl (fl.div (fl.mul l (fl.of_int (pos 60))) (fl.of_int (pos 60)))
    else finite fl (fl.div (fl.mul l (fl.of_int (pos 3600))) (fl.of_int (pos 3600)))

module _ {fl : Float64} (laws : FloatLaws fl) (pl : PeriodLaws fl) (tl : TextLib fl)
    (tw : TextLaws tl) where
  open fl use {F, of_int, is_nan, is_pos_inf, le, lt, eq, mul, div}

  printed :
      (order : List Bytes) (x : F) (unit : Bytes) (per : ℕ)
      → lookup unit units ≡ some per
      → lt (zero_f fl) x ≡ true
      → is_pos_inf x ≡ false
      → parse_limit tl order (tl.fmt_rate x ++ slash ∷ unit)
        ≡ inr (finite fl (div x (of_int (pos per))))
  printed order x unit per k h f =
      let read =
        parse_limit-slash laws tl tw order (tl.fmt_rate x) unit per x (tw.fmt_rate_plain x h f)
          (tw.parse_float-fmt_rate x h f) h k in
      ground (arith, read)

  finite-positive : (x : F) → lt (zero_f fl) x ≡ true → is_pos_inf x ≡ false → finite fl x ≡ x
  unfolding finite
  finite-positive x h f = ground (arith, laws.neg_inf_negative x)

  parse_limit-inf : (order : List Bytes) → parse_limit tl order (text "Inf") ≡ inr (inf fl)
  unfolding parse_limit parse_squeezed bytes_eq
  parse_limit-inf order = ap (parse_squeezed tl order (text "Inf")) (
      ap (λ fs. tl.lower (concat fs)) (tw.fields_visible _ _ refl)
      ∙ tw.lower_visible (text "Inf") refl)

  -- ParseLimit reads what String prints of a positive, finite rate: it gives back that very rate from
  -- one request a second up and for Inf, and below it the rate times the length of the printed period,
  -- divided by that length.
  pub parse_limit-limit_string :
      (order : List Bytes) (l : F)
      → lt (zero_f fl) l ≡ true
      → is_pos_inf l ≡ false
      → parse_limit tl order (limit_string tl l) ≡ inr (reread fl l)
  unfolding limit_string lookup bytes_eq
  parse_limit-limit_string order l h f =
      let once = printed order l (text "s") 1 refl h f in
      let fine = finite-positive l h f in
      let up = laws.le-or-lt l (zero_f fl) (not_nan laws l h) laws.zero_not-nan in
      let minute = pl.mul-positive l 60 (omega arith) h f in
      let hour = pl.mul-positive l 3600 (omega arith) h f in
      ground (
        arith,
        parse_limit-inf order,
        pl.div_one l h f,
        printed order (mul l (of_int (pos 60))) (text "min") 60 refl minute,
        printed order (mul l (of_int (pos 3600))) (text "hour") 3600 refl hour,
        pl.mul-finite l 60 (omega arith),
        pl.mul-finite l 3600 (omega arith),
      )
