-- ===== src/Migration/Tests.antt =====
-- Runs of the migration's estimate, and each theorem at a concrete input.
use demiurge.Base.{ℕ, ◌≡◌, refl, [], ◌∷◌}
use demiurge.Base.Float.{mul_floor}
use demiurge.Base.F64.{thousandths}
use demiurge.Migration.{
  commit, abort, MigrationBudget, limit_us, evaluate_cutover, QuiesceModel, quiesce,
  MigrationStallSample, sum_abs_error_us, mean_abs_error_us,
}

-- A budget of 0.05 of an inter-token latency of 1 ms
abbrev budget : MigrationBudget
budget = record { itl_us = 1000; epsilon = (3602879701896397, 56) }

commits : evaluate_cutover 40 budget ≡ commit
unfolding evaluate_cutover limit_us mul_floor
commits = refl

aborts : evaluate_cutover 60 budget ≡ abort
unfolding evaluate_cutover limit_us mul_floor
aborts = refl

-- One half of what is copied is dirty again.
abbrev halving : QuiesceModel
halving = record {
  total_bytes = 1000;
  chunk_bytes = 100;
  per_chunk_us = 50;
  dirty_fraction = (1, 1);
}

halved : quiesce halving 10 ≡ record { passes = 4; est_stall_us = 50; residual_bytes = 62 }
unfolding quiesce mul_floor
halved = refl

abbrev sample : ℕ → MigrationStallSample
sample n = record { estimated_us = n; measured_us = 40; decision = commit }

sample_errors : sum_abs_error_us (sample 10 ∷ sample 50 ∷ []) ≡ 40
unfolding sum_abs_error_us
sample_errors = refl

mean_error :
    mean_abs_error_us thousandths (record { inner = sample 10 ∷ sample 50 ∷ []; max_samples = 4 })
    ≡ 20_000
unfolding mean_abs_error_us
mean_error = refl
