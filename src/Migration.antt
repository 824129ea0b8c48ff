-- ===== src/Migration.antt =====
-- crates/demiurge-control/src/migration.rs: live migration of a reservation, from the estimate of
-- its stall to the decision, and the log of estimated and measured stalls. A `dirty_fraction` is a
-- double in [0, 1), given by its exact value as a numerator and a power of two.
pub mod Quiesce
pub mod Log
mod Tests
use demiurge.Base.{
  ℕ, zero, suc, ◌+◌, ◌-◌, ◌*◌, ◌^◌, max, Bool, List, [], ◌∷◌, ◌++◌, ltb, leb, ◌==◌, if◌then◌else◌,
  length, Option, none, some, wrapping_add, saturating_mul, div_ceil,
}
use demiurge.Base.F64.{F64}
use demiurge.Base.Float.{mul_floor}
use demiurge.Cost.Params.{migration_itl_budget_fraction_eps}

pub data MigrationDecision : Type 0 where
  commit abort : MigrationDecision

-- `epsilon`, a double of at least 0: a numerator over a power of two.
pub record MigrationBudget : Type 0 where
  pub itl_us : ℕ
  pub epsilon : ℕ × ℕ

unfoldable pub for_itl : ℕ → MigrationBudget
for_itl itl_us = record { itl_us = itl_us; epsilon = migration_itl_budget_fraction_eps }

unfoldable pub limit_us : MigrationBudget → ℕ
limit_us b = mul_floor b.epsilon.0 b.epsilon.1 b.itl_us

unfoldable pub evaluate_cutover : ℕ → MigrationBudget → MigrationDecision
evaluate_cutover est_stall_us budget = if leb est_stall_us (limit_us budget) then commit else abort

pub record QuiesceModel : Type 0 where
  pub total_bytes : ℕ
  pub chunk_bytes : ℕ
  pub per_chunk_us : ℕ
  pub dirty_fraction : ℕ × ℕ

pub record QuiesceOutcome : Type 0 where
  pub passes : ℕ
  pub est_stall_us : ℕ
  pub residual_bytes : ℕ

pub chunk : QuiesceModel → ℕ
chunk m = max m.chunk_bytes 1

pub copy_us : QuiesceModel → ℕ → ℕ
unfolding chunk
copy_us m bytes = saturating_mul (div_ceil bytes (chunk m)) m.per_chunk_us

-- The copy loop, on the passes that are left: what is still dirty, and the passes made.
pub copy_passes : ℕ × ℕ → ℕ → ℕ → ℕ → ℕ → ℕ × ℕ
copy_passes frac chunk zero dirty passes = (dirty, passes)
copy_passes frac chunk (suc left) dirty passes =
    let rest = copy_passes frac chunk left (mul_floor frac.0 frac.1 dirty) (passes + 1) in
    if ltb chunk dirty then rest else (dirty, passes)

-- `clamp(0.0, 0.999_999)`: the upper end is the double 9007190247541737 / 2 ^ 53.
pub clamp_fraction : ℕ × ℕ → ℕ × ℕ
clamp_fraction frac =
    if ltb (9007190247541737 * 2 ^ frac.1) (frac.0 * 2 ^ 53) then (9007190247541737, 53) else frac

pub quiesce : QuiesceModel → ℕ → QuiesceOutcome
unfolding copy_us copy_passes clamp_fraction
quiesce m max_passes =
    let (dirty, passes) =
      copy_passes (clamp_fraction m.dirty_fraction) (chunk m) max_passes m.total_bytes 0 in
    record { passes = passes; est_stall_us = copy_us m dirty; residual_bytes = dirty }

pub record MigrationStallSample : Type 0 where
  pub estimated_us : ℕ
  pub measured_us : ℕ
  pub decision : MigrationDecision

pub record MigrationStallLog : Type 0 where
  pub inner : List MigrationStallSample
  pub max_samples : ℕ

pub new : ℕ → MigrationStallLog
new max_samples = record { inner = []; max_samples = max max_samples 1 }

-- The log that the derived `Default` makes
pub default_log : MigrationStallLog
default_log = record { inner = []; max_samples = 0 }

-- `remove(0)`, which panics on an empty vector: no result.
abbrev remove_first : List MigrationStallSample → Option (List MigrationStallSample)
remove_first [] = none
remove_first (s ∷ ss) = some ss

-- `record`; no result where it panics.
pub record_sample : MigrationStallSample → MigrationStallLog → Option MigrationStallLog
record_sample sample log =
    elim (if leb log.max_samples (length log.inner)
      then remove_first log.inner
      else some log.inner) [
        | none ↦ none
        | some kept ↦ some (record log { inner = kept ++ sample ∷ [] })
      ]

pub samples : MigrationStallLog → List MigrationStallSample
samples log = log.inner

pub len : MigrationStallLog → ℕ
len log = length log.inner

pub is_empty : MigrationStallLog → Bool
unfolding len
is_empty log = len log == 0

-- The sum of `|estimated - measured|`, modulo `2 ^ 64`, which `mean_abs_error_us` divides by the number of samples.
pub sum_abs_error_us : List MigrationStallSample → ℕ
sum_abs_error_us [] = 0
sum_abs_error_us (s ∷ ss) =
    wrapping_add ((s.estimated_us - s.measured_us) + (s.measured_us - s.estimated_us))
      (sum_abs_error_us ss)

-- Over an interface of the operations of doubles.
unfoldable pub mean_abs_error_us : (D : F64) → MigrationStallLog → D.F
unfolding sum_abs_error_us
mean_abs_error_us D log =
    if length log.inner == 0
    then D.literal 0 0
    else D.div (D.of_u64 (sum_abs_error_us log.inner)) (D.of_u64 (length log.inner))
