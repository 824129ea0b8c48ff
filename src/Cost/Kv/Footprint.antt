-- ===== src/Cost/Kv/Footprint.antt =====
-- What `kv_breakdown` reserves, against the formulas of its doc comment.
use demiurge.Base.{ℕ, ◌+◌, ◌*◌, ◌%◌, ◌^◌, ◌≤◌, ◌<◌, ◌≡◌, arith, u64_max}
use demiurge.Base.Float.{mul_ceil, round53_exact, round53_bounds}
use demiurge.Cost.Kv.{kv_breakdown}

-- `ceil(0.08 n)` is computed with an error below one byte.
metadata_bounds :
    (n : ℕ)
    → n < 2 ^ 48
    → (2 * n ≤ 25 * mul_ceil 5764607523034235 56 n)
      × (25 * mul_ceil 5764607523034235 56 n ≤ 2 * n + 25)
unfolding mul_ceil
metadata_bounds n h =
    rw (round53_exact n (omega arith)) (omega (arith, round53_bounds (n * 5764607523034235)))

fragment_bounds :
    (n : ℕ)
    → n < 2 ^ 48
    → (n ≤ 20 * mul_ceil 3602879701896397 56 n) × (20 * mul_ceil 3602879701896397 56 n ≤ n + 20)
unfolding mul_ceil
fragment_bounds n h =
    rw (round53_exact n (omega arith)) (omega (arith, round53_bounds (n * 3602879701896397)))

-- The token count is the least multiple of 256 that covers the prompt.
pub kv_tokens_covers :
    (prompt bytes : ℕ)
    → prompt + 256 ≤ u64_max
    → let b = kv_breakdown prompt bytes in
      (b.kv_tokens % 256 ≡ 0) × (prompt ≤ b.kv_tokens) × (b.kv_tokens < prompt + 256)
unfolding kv_breakdown
kv_tokens_covers prompt bytes h = omega arith

-- For a payload below 2 ^ 48 bytes nothing wraps or saturates: the reservation is the payload, 8 %
-- of it rounded up within a byte, and 5 % of it rounded up within a byte.
pub kv_reserved_bounds :
    (prompt bytes : ℕ)
    → prompt + 256 ≤ u64_max
    → (kv_breakdown prompt bytes).kv_tokens * bytes < 2 ^ 48
    → let b = kv_breakdown prompt bytes in
      (b.kv_payload ≡ b.kv_tokens * bytes)
      × (b.kv_reserved ≡ b.kv_payload + b.kv_metadata + b.kv_fragment)
      × (2 * b.kv_payload ≤ 25 * b.kv_metadata)
      × (25 * b.kv_metadata ≤ 2 * b.kv_payload + 25)
      × (b.kv_payload ≤ 20 * b.kv_fragment)
      × (20 * b.kv_fragment ≤ b.kv_payload + 20)
unfolding kv_breakdown
kv_reserved_bounds prompt bytes p h =
    omega (arith, metadata_bounds payload small, fragment_bounds payload small)
  where
    payload : ℕ
    payload = (kv_breakdown prompt bytes).kv_payload

    small : payload < 2 ^ 48
    small = omega arith
