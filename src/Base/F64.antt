-- ===== src/Base/F64.antt =====
-- The operations of `f64` that the control plane and the cost terms use, as an interface: the models
-- are written over it, and hold for IEEE 754 arithmetic and for any other.
use Prim.Native.Nat.{ℕ, ◌+◌, ◌-◌, ◌*◌, ◌/◌, ◌^◌, min, max}
use mathlib.Core.Path.{◌≡◌, refl}
use mathlib.Core.Logic.{◌⊎◌}
use mathlib.Core.Bool.{Bool, true, false}
use native.Mathlib.Omega.{arith}
use demiurge.Base.Tests.{ltb, leb, ◌==◌}

pub record F64 : Type 1 where
  pub F : Type 0
  -- `n as f64`
  pub of_u64 : ℕ → F
  -- the literal whose exact value is a numerator over a power of two
  pub literal : ℕ → ℕ → F
  pub add : F → F → F
  pub sub : F → F → F
  pub mul : F → F → F
  pub div : F → F → F
  pub abs : F → F
  pub clamp : F → F → F → F
  pub lt : F → F → Bool
  pub le : F → F → Bool
  -- `==`
  pub eq : F → F → Bool
  -- `f64::max`
  pub max_of : F → F → F
  -- `f64::min` and `f64::INFINITY`
  pub min_of : F → F → F
  pub infinity : F
  -- `x.round() as u64`
  pub round_u64 : F → ℕ
  -- whether `total_cmp` does not answer `Greater`
  pub total_le : F → F → Bool
  -- `to_bits() == 0`
  pub is_zero_bits : F → Bool
  pub is_finite : F → Bool
  pub ln : F → F
  pub exp : F → F
  pub sqrt : F → F
  -- `x.powi(2)`
  pub square : F → F
  -- `x as u64`
  pub floor_u64 : F → ℕ
  -- what the sum of no doubles is
  pub empty_sum : F

-- What is documented of `total_cmp`, the order of all doubles in IEEE 754: it is total and transitive.
pub record IsTotalOrder (D : F64) : Type 0 where
  pub either : (x y : D.F) → (D.total_le x y ≡ true) ⊎ (D.total_le y x ≡ true)
  pub trans : (x y z : D.F) → D.total_le x y ≡ true → D.total_le y z ≡ true → D.total_le x z ≡ true

-- What is documented of `<` on finite doubles, a strict weak order; and the largest double is finite.
pub record IsFiniteOrder (D : F64) : Type 0 where
  pub max_finite : D.is_finite (D.literal ((2 ^ 53 - 1) * 2 ^ 971) 0) ≡ true
  pub asym :
      (x y : D.F) → D.is_finite x ≡ true → D.is_finite y ≡ true → D.lt x y ≡ true → D.lt y x ≡ false
  pub weak :
      (x y z : D.F)
      → D.is_finite x ≡ true
      → D.is_finite y ≡ true
      → D.is_finite z ≡ true
      → D.lt y x ≡ false
      → D.lt z y ≡ false
      → D.lt z x ≡ false

-- What is documented of `min` and `<=` on finite doubles, and of `min` of infinity and a finite double.
pub record IsMinimum (D : F64) : Type 0 where
  pub le_refl : (x : D.F) → D.is_finite x ≡ true → D.le x x ≡ true
  pub le_trans :
      (x y z : D.F)
      → D.is_finite x ≡ true
      → D.is_finite y ≡ true
      → D.is_finite z ≡ true
      → D.le x y ≡ true
      → D.le y z ≡ true
      → D.le x z ≡ true
  pub min_of_infinity : (y : D.F) → D.is_finite y ≡ true → D.min_of D.infinity y ≡ y
  pub min_of_finite :
      (x y : D.F)
      → D.is_finite x ≡ true
      → D.is_finite y ≡ true
      → (D.is_finite (D.min_of x y) ≡ true)
        × (D.le (D.min_of x y) x ≡ true)
        × (D.le (D.min_of x y) y ≡ true)

-- A stand-in that computes, thousandths as natural numbers, where a concrete input is asked for.
abbrev pub thousandths : F64
thousandths = record {
  F = ℕ;
  of_u64 = λ n. n * 1000;
  literal = λ n e. n * 1000 / 2 ^ e;
  add = λ x y. x + y;
  sub = λ x y. x - y;
  mul = λ x y. x * y / 1000;
  div = λ x y. x * 1000 / y;
  abs = λ x. x;
  clamp = λ x lo hi. min (max x lo) hi;
  lt = ltb;
  le = leb;
  eq = λ x y. x == y;
  max_of = max;
  min_of = min;
  infinity = 10 ^ 400;
  round_u64 = λ x. (x + 500) / 1000;
  total_le = leb;
  is_zero_bits = λ x. x == 0;
  is_finite = λ x. ltb x (10 ^ 400);
  ln = λ x. x;
  exp = λ x. x;
  sqrt = λ x. x;
  square = λ x. x * x / 1000;
  floor_u64 = λ x. x / 1000;
  empty_sum = 0;
}

pub thousandths-IsTotalOrder : IsTotalOrder thousandths
thousandths-IsTotalOrder = record {
  either = λ x y. ground arith;
  trans = λ x y z p q. ground arith;
}

pub thousandths-IsFiniteOrder : IsFiniteOrder thousandths
thousandths-IsFiniteOrder = record {
  max_finite = refl;
  asym = λ x y hx hy p. ground arith;
  weak = λ x y z hx hy hz p q. ground arith;
}

pub thousandths-IsMinimum : IsMinimum thousandths
thousandths-IsMinimum = record {
  le_refl = λ x h. ground arith;
  le_trans = λ x y z hx hy hz p q. ground arith;
  min_of_infinity = λ y h. ground arith;
  min_of_finite = λ x y hx hy. ground arith;
}
