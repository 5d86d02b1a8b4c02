-- ===== src/Config/Rounding.antt =====
-- The number of shards that config/config.go settles on.
use Prim.Native.Nat.{min, bit_and, digits, bit_and-bitwise}
use pace.Prelude.{
  ℕ, zero, suc, ◌+◌, ◌-◌, ◌*◌, ◌/◌, ◌%◌, ◌^◌, ◌≤◌, ◌<◌, ◌≡◌, ◌∙◌, refl, subst, arith, ltb, true,
  false, Bool, if◌then◌else◌,
}
use pace.Prelude.Int.{ℤ, pos, negsuc}
use pace.Config.{double_to, round_up_power_of_two, max_shards}
use pace.Registry.{default_shards}

pub data IsPower : ℕ → Type 0 where
  one : IsPower 1
  twice : (p : ℕ) → IsPower p → IsPower (p * 2)

digits-zero : (fuel b : ℕ) → digits (λ b. zero) min fuel 0 b ≡ 0
digits-zero zero b = refl
digits-zero (suc fuel) b = refl

digits_step :
    (fuel a b : ℕ)
    → digits (λ b. zero) min (suc fuel) a b
      ≡ digits (λ b. zero) min fuel (a / 2) (b / 2) * 2 + min (a % 2) (b % 2)
digits_step fuel zero b = omega (arith, digits-zero fuel (b / 2))
digits_step fuel (suc a) b = refl

pub IsPower-positive : (p : ℕ) → IsPower p → 1 ≤ p
IsPower-positive _ one = omega arith
IsPower-positive _ (twice p h) = omega (arith, IsPower-positive p h)

-- A power of two has no binary digit in common with its predecessor.
digits-power : (fuel p : ℕ) → IsPower p → digits (λ b. zero) min fuel p (p - 1) ≡ 0
digits-power zero p h = refl
digits-power (suc fuel) _ one = omega (arith, digits_step fuel 1 0, digits-zero fuel 0)
digits-power (suc fuel) _ (twice p h) =
    let halves : (p * 2 / 2 ≡ p) × ((p * 2 - 1) / 2 ≡ p - 1) × (p * 2 % 2 ≡ 0) =
      (omega arith, omega (arith, IsPower-positive p h), omega arith) in
    digits_step fuel (p * 2) (p * 2 - 1)
    ∙ rw (halves.0, halves.1, halves.2) (omega (arith, digits-power fuel p h))

pub bit_and-power : (p : ℕ) → IsPower p → bit_and p (p - 1) ≡ 0
bit_and-power p h = omega (arith, bit_and-bitwise p (p - 1), digits-power p p h)

-- How far `fuel` rounds of doubling reach.
abbrev reach : ℕ → ℕ → ℕ
reach zero p = p
reach (suc fuel) p = reach fuel (p * 2)

pub record IsRounded (n p : ℕ) : Type 0 where
  pub power : IsPower p
  pub enough : n ≤ p
  pub least : p < n * 2

double_to-IsRounded :
    (fuel n p : ℕ)
    → n ≤ max_shards
    → max_shards ≤ reach fuel p
    → IsPower p
    → p < n * 2
    → IsRounded n (double_to fuel n p)
double_to-IsRounded zero n p h k w l = record { power = w; enough = omega arith; least = l }
double_to-IsRounded (suc fuel) n p h k w l = go (ltb p n) refl (λ (q : p < n).
    let small : p * 2 ≡ p * 2 % 2 ^ 64 = omega arith in
    subst (λ m. IsRounded n (double_to fuel n m)) small
      (double_to-IsRounded fuel n (p * 2) h k (twice p w) (omega arith)))
  where
    go :
        (b : Bool)
        → ltb p n ≡ b
        → (p < n → IsRounded n (double_to fuel n (p * 2 % 2 ^ 64)))
        → IsRounded n (if b then double_to fuel n (p * 2 % 2 ^ 64) else p)
    go true e rest = rest (ground arith)
    go false e rest = record { power = w; enough = ground arith; least = l }

default-IsPower : IsPower default_shards
default-IsPower =
    twice 128 (twice 64 (twice 32 (twice 16 (twice 8 (twice 4 (twice 2 (twice 1 one)))))))

capped : (n : ℕ) → (if ltb max_shards n then max_shards else n) ≤ max_shards
capped n = ground arith

rounded : (n : ℕ) → 0 < n → n ≤ max_shards → IsRounded n (double_to 64 n 1)
rounded n h k = double_to-IsRounded 64 n 1 k (omega arith) one (omega arith)

-- The shard count is a power of two whatever was asked for.
pub round_up-IsPower : (n : ℤ) → IsPower (round_up_power_of_two n)
unfolding round_up_power_of_two
round_up-IsPower (negsuc n) = default-IsPower
round_up-IsPower (pos zero) = default-IsPower
round_up-IsPower (pos (suc n)) =
    let cap = if ltb max_shards (suc n) then max_shards else suc n in
    (rounded cap (ground arith) (capped (suc n))).power

-- A shard count from 1 to the limit becomes the least power of two that is enough, within the 64
-- rounds that the loop has here.
pub round_up-IsRounded :
    (n : ℕ) → 0 < n → n ≤ max_shards → IsRounded n (round_up_power_of_two (pos n))
unfolding round_up_power_of_two
round_up-IsRounded zero h k = elim h [ ]
round_up-IsRounded (suc n) h k =
    let cap = if ltb max_shards (suc n) then max_shards else suc n in
    let small : suc n ≡ cap = ground arith in
    subst (λ c. IsRounded (suc n) (double_to 64 c 1)) small (rounded (suc n) h k)
