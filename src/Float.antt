-- ===== src/Float.antt =====
-- Go's float64, which has no counterpart here: a type with the operations that the program uses.
-- The program's rates and token counts are values of `F`.
use pace.Prelude.{◌≡◌, Bool, true, false, not, ◌||◌, ◌^◌}
use pace.Prelude.Int.{ℤ, pos}

pub record Float64 : Type 1 where
  pub F : Type 0
  -- float64(n), math.MaxFloat64
  pub of_int : ℤ → F
  pub max_float : F
  -- math.IsNaN(x), math.IsInf(x, 1), math.IsInf(x, -1)
  pub is_nan : F → Bool
  pub is_pos_inf : F → Bool
  pub is_neg_inf : F → Bool
  pub lt : F → F → Bool
  pub le : F → F → Bool
  pub eq : F → F → Bool
  pub add : F → F → F
  pub sub : F → F → F
  pub mul : F → F → F
  pub div : F → F → F
  -- math.Min, math.Max
  pub fmin : F → F → F
  pub fmax : F → F → F
  -- time.Duration(x) and d.Seconds()
  pub to_int64 : F → ℤ
  pub seconds : ℤ → F

-- What IEEE 754 says of the operations, as far as theorems rely on it.
pub record FloatLaws (fl : Float64) : Type 0 where
  pub zero_not-nan : fl.is_nan (fl.of_int (pos 0)) ≡ false
  pub zero_not-pos_inf : fl.is_pos_inf (fl.of_int (pos 0)) ≡ false
  pub zero_not-neg_inf : fl.is_neg_inf (fl.of_int (pos 0)) ≡ false
  pub max_float_not-nan : fl.is_nan fl.max_float ≡ false
  pub max_float_not-pos_inf : fl.is_pos_inf fl.max_float ≡ false
  pub max_float_not-neg_inf : fl.is_neg_inf fl.max_float ≡ false
  pub max_float_positive : fl.lt (fl.of_int (pos 0)) fl.max_float ≡ true
  -- A comparison with NaN fails.
  pub lt-nan : (x y : fl.F) → fl.is_nan y ≡ true → fl.lt x y ≡ false
  pub neg_inf_negative : (x : fl.F) → fl.is_neg_inf x ≡ true → fl.lt (fl.of_int (pos 0)) x ≡ false
  -- The order of what is no NaN is total.
  pub le-or-lt :
      (x y : fl.F) → fl.is_nan x ≡ false → fl.is_nan y ≡ false → fl.le x y ≡ not (fl.lt y x)
  pub pos_inf_not-nan : (x : fl.F) → fl.is_pos_inf x ≡ true → fl.is_nan x ≡ false
  pub neg_inf_not-nan : (x : fl.F) → fl.is_neg_inf x ≡ true → fl.is_nan x ≡ false

module _ (fl : Float64) where
  open fl use {F, of_int, is_pos_inf, is_neg_inf}

  abbrev pub zero_f : F
  zero_f = of_int (pos 0)

  abbrev pub one_f : F
  one_f = of_int (pos 1)

  -- float64(time.Second)
  abbrev pub second_f : F
  second_f = of_int (pos (10 ^ 9))

  -- math.IsInf(x, 0)
  abbrev pub is_inf : F → Bool
  is_inf x = is_pos_inf x || is_neg_inf x
