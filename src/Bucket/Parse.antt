-- ===== src/Bucket/Parse.antt =====
-- bucket/parse.go and the printing of bucket/rate.go: a rate as text. The functions of strings and
-- strconv that the code calls are parameters.
pub mod Orders
pub mod RoundTrip
pub mod Sound
pub mod Tests
pub mod Spellings
use pace.Prelude.{
  ℕ, Bool, true, false, ◌&&◌, ◌||◌, not, ◌==◌, leb, Option, none, some, ◌⊎◌, inl, inr, List, [],
  ◌∷◌, ◌++◌, ◌≡◌, ◌*◌, if◌then◌else◌,
}
use pace.Prelude.Int.{ℤ, pos, ltb_ℤ}
use pace.Prelude.Bytes.{Bytes, text, bytes_eq}
use pace.Prelude.Assoc.{Assoc, lookup}
use pace.Float.{Float64, zero_f, one_f, is_inf}
use pace.Bucket.{Quota, inf, finite}
use pace.Urlx.{slash, is_empty}

-- strconv.ParseFloat(s, 64): the value, ErrRange, or ErrSyntax.
pub data ParsedFloat (F : Type 0) : Type 0 where
  parsed : F → ParsedFloat F
  out_of_range bad_syntax : ParsedFloat F

pub record TextLib (fl : Float64) : Type 0 where
  -- strings.ToLower and strings.Fields
  pub lower : Bytes → Bytes
  pub fields : Bytes → List Bytes
  pub parse_float : Bytes → ParsedFloat fl.F
  -- strconv.FormatFloat(f, 'g', -1, 64)
  pub fmt_rate : fl.F → Bytes

-- The seconds of each period.
abbrev pub units : Assoc ℕ
units =
    (text "s", 1)
    ∷ (text "sec", 1)
    ∷ (text "secs", 1)
    ∷ (text "second", 1)
    ∷ (text "seconds", 1)
    ∷ (text "m", 60)
    ∷ (text "min", 60)
    ∷ (text "mins", 60)
    ∷ (text "minute", 60)
    ∷ (text "minutes", 60)
    ∷ (text "h", 3600)
    ∷ (text "hr", 3600)
    ∷ (text "hrs", 3600)
    ∷ (text "hour", 3600)
    ∷ (text "hours", 3600)
    ∷ []

abbrev pub rp_units : Assoc ℕ
rp_units = (text "rps", 1) ∷ (text "rpm", 60) ∷ (text "rph", 3600) ∷ []

-- What an error that wraps ErrBadLimit names, besides the input.
pub data Flaw : Type 0 where
  empty_input no_period too_large not_a_number not_positive : Flaw
  unknown_period no_number : Bytes → Flaw

pub record BadLimit : Type 0 where
  pub raw : Bytes
  pub flaw : Flaw

abbrev pub bad {ℓ} : {A : Type ℓ} → Bytes → Flaw → BadLimit ⊎ A
bad r f = inl (record { raw = r; flaw = f })

-- strings.Join(fs, "")
abbrev pub concat : List Bytes → Bytes
concat [] = []
concat (f ∷ fs) = f ++ concat fs

-- strings.Cut(s, "/")
unfoldable pub cut : Bytes → Option (Bytes × Bytes)
cut [] = none
cut (b ∷ bs) =
    let rest = cut bs in
    if b == slash then some ([], bs) else elim rest [ none ↦ none | some p ↦ some (b ∷ p.0, p.1) ]

-- strings.CutSuffix(s, suffix)
unfoldable pub cut_suffix : Bytes → Bytes → Option Bytes
cut_suffix [] suffix = if bytes_eq [] suffix then some [] else none
cut_suffix (b ∷ bs) suffix =
    let rest = cut_suffix bs suffix in
    if bytes_eq (b ∷ bs) suffix then some [] else elim rest [ none ↦ none | some r ↦ some (b ∷ r) ]

-- The range over rpUnits, in the order `ks` that the runtime takes its keys in.
unfoldable pub first_suffix : List Bytes → Bytes → Option (Bytes × Bytes)
first_suffix [] s = none
first_suffix (k ∷ ks) s =
    let later = first_suffix ks s in
    elim (cut_suffix s k) [ some rest ↦ some (rest, k) | none ↦ later ]

unfoldable pub split : List Bytes → Bytes → Bytes → BadLimit ⊎ (Bytes × Bytes)
split order s raw = elim (cut s) [
  | some p ↦ elim (lookup p.1 units) [
    | none ↦ bad raw (unknown_period p.1)
    | some per ↦ inr (p.0, p.1)
  ]
  | none ↦ elim (first_suffix order s) [ some p ↦ inr p | none ↦ bad raw no_period ]
]

-- units[unit], and rpUnits[unit] where that has none; a missing key reads 0.
unfoldable pub period : Bytes → ℕ
period unit = elim (lookup unit units) [
  | some per ↦ per
  | none ↦ elim (lookup unit rp_units) [ some per ↦ per | none ↦ 0 ]
]

abbrev pub is_infinite : Bytes → Bool
is_infinite s =
    bytes_eq s (text "inf") || bytes_eq s (text "infinite") || bytes_eq s (text "unlimited")

module _ {fl : Float64} (tl : TextLib fl) where
  open fl use {F, of_int, is_nan, is_pos_inf, le, eq, mul, div}
  open tl use {lower, fields, parse_float, fmt_rate}

  -- What follows ParseFloat's success.
  unfoldable pub rate_of : Bytes → Bytes → F → BadLimit ⊎ F
  rate_of raw unit n =
      if is_nan n
      then bad raw not_a_number
      else if le n (zero_f fl)
      then bad raw not_positive
      else if is_pos_inf n
      then inr (inf fl)
      else inr (finite fl (div n (of_int (pos (period unit)))))

  unfoldable pub parse_number : Bytes → Bytes → Bytes → BadLimit ⊎ F
  parse_number raw num unit = elim (parse_float num) [
    | out_of_range ↦ bad raw too_large
    | bad_syntax ↦ bad raw (no_number unit)
    | parsed n ↦ rate_of raw unit n
  ]

  unfoldable pub parse_squeezed : List Bytes → Bytes → Bytes → BadLimit ⊎ F
  parse_squeezed order raw s =
      if is_empty s
      then bad raw empty_input
      else if is_infinite s
      then inr (inf fl)
      else elim (split order s raw) [ inl e ↦ inl e | inr p ↦ parse_number raw p.0 p.1 ]

  unfoldable pub parse_limit : List Bytes → Bytes → BadLimit ⊎ F
  parse_limit order s = parse_squeezed order s (lower (concat (fields s)))

  unfoldable pub parse_quota : List Bytes → Bytes → ℤ → BadLimit ⊎ Quota F
  parse_quota order rate burst = elim (parse_limit order rate) [
    | inl e ↦ inl e
    | inr l ↦ inr (record { rate = l; burst = if ltb_ℤ burst (pos 1) then pos 1 else burst })
  ]

  -- NewLimit and NewQuota; none is a panic.
  unfoldable pub new_limit : List Bytes → Bytes → Option F
  new_limit order s = elim (parse_limit order s) [ inl e ↦ none | inr l ↦ some l ]

  unfoldable pub new_quota : List Bytes → Bytes → ℤ → Option (Quota F)
  new_quota order rate burst = elim (parse_quota order rate burst) [ inl e ↦ none | inr q ↦ some q ]

  unfoldable pub limit_string : F → Bytes
  limit_string l =
      if eq l (inf fl)
      then text "Inf"
      else if le l (zero_f fl)
      then text "0"
      else if le (one_f fl) l
      then fmt_rate l ++ text "/s"
      else if le (one_f fl) (mul l (of_int (pos 60)))
      then fmt_rate (mul l (of_int (pos 60))) ++ text "/min"
      else fmt_rate (mul l (of_int (pos 3600))) ++ text "/hour"
