-- ===== src/Cost/Params.antt =====
-- crates/demiurge-cost/src/generated_params.rs: the parameters that the model uses. A fractional
-- parameter is a double, given by its exact value as a numerator and a power of two.
use demiurge.Base.{ℕ}

abbrev pub cache_block_tokens : ℕ
cache_block_tokens = 256

abbrev pub kv_abandoned_session_ttl_s : ℕ
kv_abandoned_session_ttl_s = 300

abbrev pub kv_handoff_byte_ceiling_multiple : ℕ
kv_handoff_byte_ceiling_multiple = 4

abbrev pub routing_short_context_tokens : ℕ
routing_short_context_tokens = 512

-- 0.05
abbrev pub kv_fragmentation_slack : ℕ × ℕ
kv_fragmentation_slack = (3602879701896397, 56)

-- 0.08
abbrev pub kv_metadata_overhead_fraction : ℕ × ℕ
kv_metadata_overhead_fraction = (5764607523034235, 56)

-- 0.25
abbrev pub kv_max_outstanding_per_source_fraction : ℕ × ℕ
kv_max_outstanding_per_source_fraction = (1, 2)

-- 0.9
abbrev pub cache_cuckoo_max_loadfactor : ℕ × ℕ
cache_cuckoo_max_loadfactor = (8106479329266893, 53)

-- 0.5
abbrev pub migration_itl_budget_fraction_eps : ℕ × ℕ
migration_itl_budget_fraction_eps = (1, 1)
