-- ===== src/Cost/Kv.antt =====
-- crates/demiurge-cost/src/kv.rs: the block-aligned KV footprint of a request, the percentile of the
-- recent sizes, and the fleet's marginal bytes. Sums and products of `u64` wrap where the source
-- neither checks nor saturates.
pub mod Footprint
pub mod Percentile
use demiurge.Base.{
  ℕ, ◌+◌, ◌-◌, ◌*◌, ◌%◌, max, List, [], ◌∷◌, length, get_or, sort, u64_mod, saturating_add,
  saturating_mul, wrapping_add, div_ceil,
}
use demiurge.Base.Float.{mul_ceil}
use demiurge.Cost.Params.{cache_block_tokens, kv_metadata_overhead_fraction, kv_fragmentation_slack}

pub record KvBreakdown : Type 0 where
  pub prompt_tokens : ℕ
  pub kv_tokens : ℕ
  pub kv_payload : ℕ
  pub kv_metadata : ℕ
  pub kv_fragment : ℕ
  pub kv_reserved : ℕ

unfoldable pub kv_breakdown : ℕ → ℕ → KvBreakdown
kv_breakdown prompt_tokens bytes_per_token =
    let block = max cache_block_tokens 1 in
    let kv_tokens = (div_ceil prompt_tokens block * block) % u64_mod in
    let kv_payload = saturating_mul kv_tokens bytes_per_token in
    let kv_metadata =
      mul_ceil kv_metadata_overhead_fraction.0 kv_metadata_overhead_fraction.1 kv_payload in
    let kv_fragment = mul_ceil kv_fragmentation_slack.0 kv_fragmentation_slack.1 kv_payload in
    record {
      prompt_tokens = prompt_tokens;
      kv_tokens = kv_tokens;
      kv_payload = kv_payload;
      kv_metadata = kv_metadata;
      kv_fragment = kv_fragment;
      kv_reserved = wrapping_add (wrapping_add kv_payload kv_metadata) kv_fragment;
    }

-- The rank of the 90th percentile among `n` samples: `(n as f64 * 0.9).ceil()`.
pub rank90 : ℕ → ℕ
rank90 n = mul_ceil 8106479329266893 53 n

unfoldable pub percentile90 : List ℕ → ℕ
unfolding rank90
percentile90 [] = 0
percentile90 (x ∷ xs) =
    let samples = sort (x ∷ xs) in get_or samples (rank90 (length samples) - 1) 0

unfoldable pub fleet_marginal_bytes : ℕ → ℕ → ℕ
fleet_marginal_bytes fleet_reserved p90_increment = saturating_add fleet_reserved p90_increment

unfoldable pub fleet_marginal_bytes_wrong : ℕ → ℕ → ℕ → ℕ
fleet_marginal_bytes_wrong fleet_reserved p90_increment n =
    saturating_add fleet_reserved (saturating_mul p90_increment n)
