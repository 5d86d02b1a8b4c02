-- ===== src/Bucket/Tests.antt =====
-- Calls on a bucket of bucket/bucket.go at fixed inputs.
use pace.Prelude.{◌^◌, ◌≡◌, refl, if-both, Bool, [], ◌∷◌}
use pace.Prelude.Int.{pos, ◌-ℤ◌, leb_ℤ}
use pace.Bucket.{Quota, new_bucket, restore_bucket, usable_rate, per_minute, delay_at}
use pace.Bucket.Coherence.{RateLaws, IsCoherent, calls, sets, allows, bucket-IsCoherent}
use pace.Samples.{Num, Tokens, whole, plus_inf, not_a_number, floats, float_laws, rates}

sample_rates : RateLaws rates
sample_rates = record {
  limit-new = λ r b. refl;
  limit-set_limit = λ l t r. refl;
  limit-set_burst = λ l t b. refl;
  limit-allow = λ l t n.
      if-both {A = Tokens × Bool} (λ m. m.0.limit ≡ l.limit) (leb_ℤ n l.left) _ _ refl refl;
  limit-reserve = λ l t n. refl;
  limit-cancel = λ l h t. refl;
}

abbrev unlimited : Quota Num
unlimited = record { rate = plus_inf; burst = pos 3 }

abbrev broken : Quota Num
broken = record { rate = not_a_number; burst = pos 3 }

usable : usable_rate floats plus_inf ≡ whole (pos (10 ^ 300))
unfolding usable_rate
usable = refl

a_minute : per_minute floats (whole (pos 120)) ≡ whole (pos 2)
unfolding per_minute
a_minute = refl

wait_for_token :
    delay_at rates
      (record (new_bucket rates (record { rate = whole (pos 1); burst = pos 0 })) {
        quota = broken;
      })
      (pos 5)
    ≡ pos 1_000_000_000
unfolding delay_at new_bucket usable_rate ◌-ℤ◌
wait_for_token = refl

bucket-IsCoherent_example :
    IsCoherent float_laws sample_rates (
      calls float_laws sample_rates
        (new_bucket rates unlimited)
        (allows (pos 5) ∷ sets (pos 6) broken ∷ []))
    × IsCoherent float_laws sample_rates (
        calls float_laws sample_rates
          (restore_bucket rates unlimited not_a_number (pos 1) (pos 5))
          (allows (pos 5) ∷ sets (pos 6) broken ∷ []))
bucket-IsCoherent_example =
    bucket-IsCoherent float_laws sample_rates unlimited not_a_number (pos 1) (pos 5)
      (allows (pos 5) ∷ sets (pos 6) broken ∷ [])
