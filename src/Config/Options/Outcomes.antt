-- ===== src/Config/Options/Outcomes.antt =====
-- The list of options that Apply of config/options.go folds, and DefaultConfig through Resolve.
use pace.Prelude.{ℕ, true, false, Option, none, some, inr, List, [], ◌∷◌, map, ◌≡◌, refl, ap, arith}
use pace.Prelude.Int.{pos}
use pace.Prelude.Bytes.{Bytes, text, bytes_eq}
use pace.Prelude.Assoc.{lookup}
use pace.Float.{Float64, FloatLaws, zero_f}
use pace.Bucket.{Quota, finite}
use pace.Bucket.Parse.{TextLib, parsed, parse_limit, parse_quota, new_quota}
use pace.Bucket.Parse.RoundTrip.{TextLaws, rate_per, parse_limit-slash}
use pace.Config.{Standard, checked, validate, with_defaults, resolve}
use pace.Config.Options.{
  Options, no_options, with_quota_for, with_cookie_jar_for, apply_to, apply, started,
  default_config,
}
use pace.Urlx
use pace.Urlx.{UrlLib, is_empty}

-- What a caller can build with the package: WithQuotaFor, WithCookieJarFor, or nil.
data Setting (F : Type 0) : Type 0 where
  quota_hook : Option (Bytes → Quota F → Quota F) → Setting F
  jar_hook : Option (Bytes → Option ℕ → Option ℕ) → Setting F
  no_setting : Setting F

module _ {F : Type 0} where
  abbrev option_of : Setting F → Option (Options F → Options F)
  option_of (quota_hook f) = some (with_quota_for f)
  option_of (jar_hook f) = some (with_cookie_jar_for f)
  option_of no_setting = none

  -- The last hook of each kind, and `f` where there is none.
  abbrev last_quota :
      Option (Bytes → Quota F → Quota F) → List (Setting F) → Option (Bytes → Quota F → Quota F)
  last_quota f [] = f
  last_quota f (quota_hook g ∷ s) = last_quota g s
  last_quota f (jar_hook g ∷ s) = last_quota f s
  last_quota f (no_setting ∷ s) = last_quota f s

  abbrev last_jar :
      Option (Bytes → Option ℕ → Option ℕ) → List (Setting F) → Option (Bytes → Option ℕ → Option ℕ)
  last_jar f [] = f
  last_jar f (quota_hook g ∷ s) = last_jar f s
  last_jar f (jar_hook g ∷ s) = last_jar g s
  last_jar f (no_setting ∷ s) = last_jar f s

  apply_to_last :
      (o : Options F) (s : List (Setting F))
      → apply_to o (map option_of s)
        ≡ record { quota_for = last_quota o.quota_for s; jar_for = last_jar o.jar_for s }
  unfolding with_quota_for with_cookie_jar_for
  apply_to_last o [] = refl
  apply_to_last o (quota_hook g ∷ s) = apply_to_last (with_quota_for g o) s
  apply_to_last o (jar_hook g ∷ s) = apply_to_last (with_cookie_jar_for g o) s
  apply_to_last o (no_setting ∷ s) = apply_to_last o s

  -- Of several options of one kind the last decides, a nil hook included; options of the other kind
  -- and nil options in between change nothing of it.
  apply_last :
      (s : List (Setting F))
      → apply (map option_of s)
        ≡ record { quota_for = last_quota none s; jar_for = last_jar none s }
  unfolding apply
  apply_last s = apply_to_last no_options s

module _ {fl : Float64} (laws : FloatLaws fl) (tl : TextLib fl) (tw : TextLaws tl) where
  open fl use {F, of_int, is_nan, is_pos_inf, le, lt, div}

  abbrev default_quota : Quota F
  default_quota = record { rate = rate_per fl (of_int (pos 100)) 60; burst = pos 10 }

  new_quota-default :
      (order : List Bytes)
      → tl.parse_float (text "100") ≡ parsed (of_int (pos 100))
      → lt (zero_f fl) (of_int (pos 100)) ≡ true
      → new_quota tl order (text "100/m") (pos 10) ≡ some default_quota
  unfolding new_quota parse_quota lookup bytes_eq
  new_quota-default order p h =
      let read : parse_limit tl order (text "100/m") ≡ inr (rate_per fl (of_int (pos 100)) 60) =
        parse_limit-slash laws tl tw order (text "100") (text "m") 60 (of_int (pos 100)) refl p h
          refl in
      rw (new_quota, parse_quota, read) refl

  default_rate-positive :
      lt (zero_f fl) (div (of_int (pos 100)) (of_int (pos 60))) ≡ true
      → lt (zero_f fl) default_quota.rate ≡ true
  unfolding finite
  default_rate-positive h = ground (arith, laws.max_float_positive)

  started-is_valid :
      (ul : UrlLib) (order : List Bytes) (base : Bytes)
      → lt (zero_f fl) default_quota.rate ≡ true
      → is_empty base ≡ false
      → Urlx.validate ul base ≡ none
      → validate fl ul (started tl order base default_quota) ≡ none
  unfolding validate
  started-is_valid ul order base h e v =
      let n : is_nan default_quota.rate ≡ false =
        ground (arith, laws.lt-nan (zero_f fl) default_quota.rate) in
      let l : le default_quota.rate (zero_f fl) ≡ false =
        ground (arith, laws.le-or-lt default_quota.rate (zero_f fl) n laws.zero_not-nan) in
      rw (e, v, n, l) refl

  -- Where ParseFloat reads "100" and a hundred sixtieths are above zero, DefaultConfig never panics,
  -- and Resolve accepts its settings for every base URL that urlx accepts.
  resolve-default_config :
      (ul : UrlLib) (std : Standard) (order : List Bytes) (base : Bytes)
      → tl.parse_float (text "100") ≡ parsed (of_int (pos 100))
      → lt (zero_f fl) (of_int (pos 100)) ≡ true
      → lt (zero_f fl) (div (of_int (pos 100)) (of_int (pos 60))) ≡ true
      → is_empty base ≡ false
      → Urlx.validate ul base ≡ none
      → (default_config tl order base ≡ some (started tl order base default_quota))
        × (resolve fl ul std (started tl order base default_quota)
            ≡ inr (with_defaults fl std (started tl order base default_quota)))
  unfolding resolve default_config
  resolve-default_config ul std order base p h d e v = (
    rw (default_config, new_quota-default order p h) refl,
    ap (checked fl std (started tl order base default_quota))
        (started-is_valid ul order base (default_rate-positive d) e v),
  )
