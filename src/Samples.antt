-- ===== src/Samples.antt =====
-- Concrete values for the parameters, at which theorems are applied: whole numbers with infinities
-- and a NaN for float64, and a limiter that never refills for golang.org/x/time/rate.
use pace.Prelude.{
  none, some, [], ap, ◌+◌, ◌*◌, ◌/◌, ◌^◌, ◌≡◌, refl, Bool, true, false, arith, if◌then◌else◌,
}
use pace.Prelude.Int.{ℤ, pos, pos_part, neg_part, ltb_ℤ, leb_ℤ, eq_ℤ, sub_ℕ, ◌+ℤ◌, ◌-ℤ◌}
use pace.Prelude.Bytes.{text}
use pace.Config.{Config, Standard}
use pace.Shared.{deny}
use pace.Float.{Float64, FloatLaws}
use pace.Bucket.{RateLib, Bucket}
use pace.Gate.Shadow.{CancelLaws}

pub data Num : Type 0 where
  not_a_number plus_inf minus_inf : Num
  whole : ℤ → Num

abbrev num_is_nan : Num → Bool
num_is_nan not_a_number = true
num_is_nan _ = false

abbrev num_is_pos_inf : Num → Bool
num_is_pos_inf plus_inf = true
num_is_pos_inf _ = false

abbrev num_is_neg_inf : Num → Bool
num_is_neg_inf minus_inf = true
num_is_neg_inf _ = false

abbrev num_lt : Num → Num → Bool
num_lt not_a_number _ = false
num_lt plus_inf _ = false
num_lt minus_inf not_a_number = false
num_lt minus_inf minus_inf = false
num_lt minus_inf _ = true
num_lt (whole a) (whole b) = ltb_ℤ a b
num_lt (whole a) plus_inf = true
num_lt (whole a) _ = false

abbrev num_le : Num → Num → Bool
num_le not_a_number _ = false
num_le plus_inf plus_inf = true
num_le plus_inf _ = false
num_le minus_inf not_a_number = false
num_le minus_inf _ = true
num_le (whole a) (whole b) = leb_ℤ a b
num_le (whole a) plus_inf = true
num_le (whole a) _ = false

abbrev num_eq : Num → Num → Bool
num_eq (whole a) (whole b) = eq_ℤ a b
num_eq plus_inf plus_inf = true
num_eq minus_inf minus_inf = true
num_eq _ _ = false

abbrev on_whole : (ℤ → ℤ → ℤ) → Num → Num → Num
on_whole f (whole a) (whole b) = whole (f a b)
on_whole f _ _ = not_a_number

abbrev times : ℤ → ℤ → ℤ
times a b =
    sub_ℕ (pos_part a * pos_part b + neg_part a * neg_part b)
      (pos_part a * neg_part b + neg_part a * pos_part b)

-- Towards zero.
abbrev quotient : ℤ → ℤ → ℤ
quotient a b =
    sub_ℕ (pos_part a / pos_part b + neg_part a / neg_part b)
      (pos_part a / neg_part b + neg_part a / pos_part b)

abbrev to_whole : Num → ℤ
to_whole (whole a) = a
to_whole _ = pos 0

abbrev pub floats : Float64
floats = record {
  F = Num;
  of_int = whole;
  max_float = whole (pos (10 ^ 300));
  is_nan = num_is_nan;
  is_pos_inf = num_is_pos_inf;
  is_neg_inf = num_is_neg_inf;
  lt = num_lt;
  le = num_le;
  eq = num_eq;
  add = on_whole (λ a b. a +ℤ b);
  sub = on_whole (λ a b. a -ℤ b);
  mul = on_whole times;
  div = on_whole quotient;
  fmin = λ a b. if num_lt b a then b else a;
  fmax = λ a b. if num_lt a b then b else a;
  to_int64 = to_whole;
  seconds = λ d. whole (quotient d (pos (10 ^ 9)));
}

lt-nan' : (x y : Num) → num_is_nan y ≡ true → num_lt x y ≡ false
lt-nan' x y h = ground arith

neg_inf_negative' : (x : Num) → num_is_neg_inf x ≡ true → num_lt (whole (pos 0)) x ≡ false
neg_inf_negative' x h = ground arith

pub float_laws : FloatLaws floats
float_laws = record {
  zero_not-nan = refl;
  zero_not-pos_inf = refl;
  zero_not-neg_inf = refl;
  max_float_not-nan = refl;
  max_float_not-pos_inf = refl;
  max_float_not-neg_inf = refl;
  max_float_positive = refl;
  lt-nan = lt-nan';
  neg_inf_negative = neg_inf_negative';
  le-or-lt = λ x y h k. ground arith;
  pos_inf_not-nan = λ x h. ground arith;
  neg_inf_not-nan = λ x h. ground arith;
}

pub record Tokens : Type 0 where
  pub limit : Num
  pub burst : ℤ
  pub left : ℤ

-- A second's delay for each token that is missing.
abbrev pub rates : RateLib floats
rates = record {
  Limiter = Tokens;
  Held = ℤ;
  new_limiter = λ r b. record { limit = r; burst = b; left = b };
  limit = λ l. l.limit;
  tokens_at = λ l t. whole l.left;
  allow_n = λ l t n. if leb_ℤ n l.left then (record l { left = l.left -ℤ n }, true) else (l, false);
  reserve_n = λ l t n. (record l { left = l.left -ℤ n }, l.left -ℤ n);
  held_ok = λ h. true;
  held_delay = λ h t. if ltb_ℤ h (pos 0) then pos (10 ^ 9) else pos 0;
  cancel = λ l h t. record l { left = l.left +ℤ pos 1 };
  set_limit_at = λ l t r. record l { limit = r };
  set_burst_at = λ l t b. record l { burst = b; left = if ltb_ℤ b l.left then b else l.left };
}

give_back : (a : ℤ) → a -ℤ pos 1 +ℤ pos 1 ≡ a
unfolding ◌+ℤ◌ ◌-ℤ◌
give_back a = ground arith

pub cancel_laws : CancelLaws rates
cancel_laws = record { undo = λ l t. ap whole (give_back l.left) }

abbrev pub bucket_of : ℤ → Bucket rates
bucket_of n = record {
  limiter = record { limit = whole (pos 1); burst = pos 10; left = n };
  quota = record { rate = whole (pos 1); burst = pos 10 };
}

-- Settings as a caller may write them, with a shared backend.
abbrev pub settings : Config Num
settings = record {
  base_url = text "http://a";
  idle_expiry = pos 0;
  gc_interval = pos 0;
  transport = none;
  cookie_jar = none;
  max_response_bytes = pos 0;
  request_timeout = pos 0;
  clock = none;
  logger = none;
  store = none;
  store_timeout = pos 0;
  quota = record { rate = whole (pos 2); burst = pos 0 };
  shared = record { backend = some 9; namespace = []; timeout = pos 0; on_error = deny };
  shards = pos 5;
  observer = none;
}

abbrev pub standard : Standard
standard = record { clock = 1; logger = 2; transport = 3 }
