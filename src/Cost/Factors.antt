-- ===== src/Cost/Factors.antt =====
-- crates/demiurge-cost/src/lib.rs: the factors of a cost, checked or clamped, over an interface of the
-- operations of `f64`. The counter of clamp events is telemetry and is left.
use demiurge.Base.{◌-◌, ◌*◌, ◌^◌, ◌≡◌, true, false, ◌&&◌, ◌||◌, not, if◌then◌else◌, arith}
use demiurge.Base.F64.{F64}

pub data FactorError : Type 0 where
  not_finite out_of_range : FactorError

module _ (D : F64) where
  pub data Factor : Type 0 where
    ok : D.F → Factor
    err : FactorError → Factor

  abbrev pub zero_f : D.F
  zero_f = D.literal 0 0

  abbrev pub one_f : D.F
  one_f = D.literal 1 0

  -- `f64::MAX`
  abbrev pub max_value : D.F
  max_value = D.literal ((2 ^ 53 - 1) * 2 ^ 971) 0

  -- 0.2
  abbrev pub alpha : D.F
  alpha = D.literal 3602879701896397 54

  -- `Corrector::new`
  unfoldable pub corrector : D.F → D.F
  corrector delta =
      let lo = D.sub one_f alpha in
      let hi = D.add one_f alpha in
      if not (D.is_finite delta)
      then one_f
      else if D.lt delta lo
      then lo
      else if D.lt hi delta
      then hi
      else delta

  -- `TimeCore::clamped`
  unfoldable pub time_core : D.F → D.F
  time_core seconds = if D.is_finite seconds && D.lt zero_f seconds then seconds else max_value

  -- `Cost::from_ln`
  unfoldable pub cost_from_ln : D.F → D.F
  cost_from_ln ln = if D.is_finite ln then ln else max_value

  -- `TimeCore::new`
  unfoldable pub checked_core : D.F → Factor
  checked_core seconds =
      if not (D.is_finite seconds)
      then err not_finite
      else if D.le seconds zero_f
      then err out_of_range
      else ok seconds

  -- `BarrierFactor::new`
  unfoldable pub checked_barrier : D.F → Factor
  checked_barrier x =
      if not (D.is_finite x)
      then err not_finite
      else if D.lt x one_f
      then err out_of_range
      else ok x

  -- `BarrierFactor::clamped`
  unfoldable pub clamped_barrier : D.F → D.F
  clamped_barrier x = if D.is_finite x && D.le one_f x then x else max_value

  -- `Discount::new`
  unfoldable pub checked_discount : D.F → Factor
  checked_discount x =
      if not (D.is_finite x)
      then err not_finite
      else if D.le x zero_f || D.lt one_f x
      then err out_of_range
      else ok x

  -- `Discount::clamped`
  unfoldable pub clamped_discount : D.F → D.F
  clamped_discount x = if D.is_finite x && (D.lt zero_f x && D.le x one_f) then x else one_f

  -- Where two numbers that are not in one order are in the other, as finite doubles are, a barrier that
  -- is accepted is not clamped.
  clamped_barrier-checked_barrier :
      (x y : D.F)
      → ((a b : D.F) → D.lt a b ≡ false → D.le b a ≡ true)
      → checked_barrier x ≡ ok y
      → clamped_barrier x ≡ y
  unfolding checked_barrier clamped_barrier
  clamped_barrier-checked_barrier x y total e = ground (arith, total x one_f)
