-- ===== src/Base/Float.antt =====
-- `f64` where the program multiplies a `u64` by a constant and rounds back to a `u64`. Such values
-- are non-negative, far below the largest double and far above the smallest, so IEEE 754 rounding
-- is rounding to 53 significant bits, ties to even, and a double is an exact fraction over a power
-- of two. A constant is given by its exact value, a numerator over `2 ^ 53` or `2 ^ 60`.
use Prim.Native.Nat.{ℕ, zero, suc, ◌+◌, ◌-◌, ◌*◌, ◌/◌, ◌%◌, ◌^◌, ◌≤◌, ◌<◌, min}
use mathlib.Core.Path.{◌≡◌, refl}
use mathlib.Core.Logic.{◌⊎◌, inl, inr}
use native.Mathlib.Omega.{arith}
use native.Mathlib.Nat.{
  div-lt_iff_lt-mul, mul-le-mul_right, mul-le-mul_left, mul-lt-mul_of_pos_left,
}
use mathlib.Core.Bool.{Bool}
use demiurge.Base.Tests.{ltb, leb, ◌==◌, if◌then◌else◌}
use demiurge.Base.Words.{u64_max, div_ceil}

-- The unit in the last place of a natural below `2 ^ (53 + fuel)`: the least power of two `u` with
-- `n < 2 ^ 53 * u`.
pub ulp : ℕ → ℕ → ℕ
ulp zero n = 1
ulp (suc f) n = let rest = 2 * ulp f (n / 2) in if ltb n (2 ^ 53) then 1 else rest

-- Rounding to a multiple of `u`, to the nearer one, and to the even one where both are as near.
pub round_to : ℕ → ℕ → ℕ
round_to u n =
    let q = n / u in
    let r = n % u in
    if ltb (2 * r) u
    then q * u
    else if ltb u (2 * r)
    then (q + 1) * u
    else if q % 2 == 0
    then q * u
    else (q + 1) * u

-- Rounding to 53 significant bits. The fuel serves every number below `2 ^ 153`; a product of a
-- `u64` and a numerator of at most 53 bits is below `2 ^ 117`.
unfoldable pub round53 : ℕ → ℕ
unfolding ulp round_to
round53 n = round_to (ulp 100 n) n

-- `(n as f64 * c).ceil() as u64` for the double `c = mantissa / 2 ^ shift`
unfoldable pub mul_ceil : ℕ → ℕ → ℕ → ℕ
unfolding round53
mul_ceil mantissa shift n = min (div_ceil (round53 (round53 n * mantissa)) (2 ^ shift)) u64_max

-- `(n as f64 * c) as u64`: the cast drops the fraction and saturates
unfoldable pub mul_floor : ℕ → ℕ → ℕ → ℕ
unfolding round53
mul_floor mantissa shift n = min (round53 (round53 n * mantissa) / 2 ^ shift) u64_max

pub ulp_pos : (f n : ℕ) → 0 < ulp f n
unfolding ulp
ulp_pos zero n = omega arith
ulp_pos (suc f) n = ground (arith, ulp_pos f (n / 2))

-- The number fits 53 bits, or it has 53 bits above its unit.
pub ulp-le : (f n : ℕ) → (ulp f n ≡ 1) ⊎ (2 ^ 52 * ulp f n ≤ n)
unfolding ulp
ulp-le zero n = inl refl
ulp-le (suc f) n = ground (arith, ulp-le f (n / 2))

ulp_of_small : (f n : ℕ) → n < 2 ^ 53 → ulp f n ≡ 1
unfolding ulp
ulp_of_small zero n h = refl
ulp_of_small (suc f) n h = ground arith

round_to_one : (n : ℕ) → round_to 1 n ≡ n
unfolding round_to
round_to_one n = ground arith

-- A number that a double holds exactly is not changed.
pub round53_exact : (n : ℕ) → n < 2 ^ 53 → round53 n ≡ n
unfolding round53
round53_exact n h = rw (ulp_of_small 100 n h) (round_to_one n)

-- Rounding moves a number by half a unit at most.
pub round_to_bounds :
    (u n : ℕ) → 0 < u → (2 * round_to u n ≤ 2 * n + u) × (2 * n ≤ 2 * round_to u n + u)
unfolding round_to
round_to_bounds u n h = ground arith

-- The relative error of rounding is at most `1 / 2 ^ 53`.
pub round53_bounds :
    (n : ℕ) → (2 ^ 53 * round53 n ≤ 2 ^ 53 * n + n) × (2 ^ 53 * n ≤ 2 ^ 53 * round53 n + n)
unfolding round53
round53_bounds n = elim (ulp-le 100 n) [
  | inl e ↦ rw (e, round_to_one n) (omega arith, omega arith)
  | inr h ↦ omega (arith, round_to_bounds (ulp 100 n) n (ulp_pos 100 n))
]

pow_pos : (e : ℕ) → 0 < 2 ^ e
pow_pos zero = omega arith
pow_pos (suc e) = omega (arith, pow_pos e)

-- A product with a double that is at most `1 - 1 / 10 ^ 6`, as this program's clamp leaves it, is
-- less than the number.
pub mul_floor_lt : (m e n : ℕ) → m * 2 ^ 53 ≤ 9007190247541737 * 2 ^ e → 0 < n → mul_floor m e n < n
unfolding mul_floor
mul_floor_lt m e n h pos =
    omega (
      arith,
      (div-lt_iff_lt-mul {k = 2 ^ e} {x = round53 (round53 n * m)} {y = n} power_pos).1 below,
    )
  where
    power_pos : 0 < 2 ^ e
    power_pos = pow_pos e

    below : round53 (round53 n * m) < n * 2 ^ e
    below = omega (
      arith,
      round53_bounds (round53 n * m),
      mul-le-mul_right m (round53_bounds n).0,
      mul-le-mul_left n h,
      mul-lt-mul_of_pos_left power_pos pos,
    )

-- `n as f64 / d as f64 >= c` for the double `c = mantissa / 2 ^ shift`, whose mantissa is above
-- `2 ^ 52` and below `2 ^ 53`: the quotient is rounded to `c` or above just if it is above the middle
-- between `c` and the double before it, or at the middle where `c` is the even one of the two.
unfoldable pub quotient_at_least : ℕ → ℕ → ℕ → ℕ → Bool
unfolding round53
quotient_at_least mantissa shift n d =
    let bound = (2 * mantissa - 1) * round53 d in
    let scaled = round53 n * 2 ^ (shift + 1) in
    if mantissa % 2 == 0 then leb bound scaled else ltb bound scaled

-- On numbers that doubles hold exactly only the quotient is rounded.
pub quotient_at_least_exact :
    (mantissa shift n d : ℕ)
    → n < 2 ^ 53
    → d < 2 ^ 53
    → quotient_at_least mantissa shift n d ≡ (
        if mantissa % 2 == 0
        then leb ((2 * mantissa - 1) * d) (n * 2 ^ (shift + 1))
        else ltb ((2 * mantissa - 1) * d) (n * 2 ^ (shift + 1)))
unfolding quotient_at_least
quotient_at_least_exact mantissa shift n d hn hd = rw (round53_exact n hn, round53_exact d hd) refl
