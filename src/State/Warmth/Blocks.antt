-- ===== src/State/Warmth/Blocks.antt =====
-- The routing blocks of a prompt cover it.
use demiurge.Base.{
  ℕ, zero, suc, ◌+◌, ◌-◌, ◌*◌, ◌≤◌, ◌<◌, ◌≡◌, refl, max, length, get_or, saturating_mul, div_ceil,
  u64_max, arith,
}
use native.Mathlib.Nat.{div-mul-le_self, lt-div-mul-add, mul-le-mul_right}
use demiurge.State.Warmth.{blocks_from, routing_blocks}

length-blocks_from : (block i n : ℕ) → length (blocks_from block i n) ≡ n
unfolding blocks_from
length-blocks_from block i zero = refl
length-blocks_from block i (suc n) = omega (arith, length-blocks_from block (i + 1) n)

blocks_from-get_or :
    (block i n k : ℕ) → k < n → get_or (blocks_from block i n) k 0 ≡ saturating_mul (i + k) block
unfolding blocks_from
blocks_from-get_or block i zero k h = absurd (omega arith)
blocks_from-get_or block i (suc n) zero h = ground arith
blocks_from-get_or block i (suc n) (suc k) h = ground (arith, blocks_from-get_or block (i + 1) n k)

-- The blocks of a prompt of a `u64` length are the multiples of the block size below it, in order,
-- without gap, and none is cut off: the last begins before the prompt's end and reaches it.
pub routing_blocks_cover :
    (prompt_tokens block_tokens : ℕ)
    → prompt_tokens ≤ u64_max
    → (prompt_tokens ≤ length (routing_blocks prompt_tokens block_tokens) * max block_tokens 1)
      × ((k : ℕ)
          → k < length (routing_blocks prompt_tokens block_tokens)
          → (get_or (routing_blocks prompt_tokens block_tokens) k 0 ≡ k * max block_tokens 1)
            × (k * max block_tokens 1 < prompt_tokens))
unfolding routing_blocks
routing_blocks_cover p t h = (
  rw (length-blocks_from block 0 n)
      (omega (arith, lt-div-mul-add {a = p + (block - 1)} {b = block} (omega arith))),
  λ k lt. (
    omega (arith, blocks_from-get_or block 0 n k (counted k lt), below k (counted k lt)),
    below k (counted k lt),
  ),
)
  where
    block : ℕ
    block = max t 1

    n : ℕ
    n = div_ceil p block

    counted : (k : ℕ) → k < length (blocks_from block 0 n) → k < n
    counted k lt = omega (arith, length-blocks_from block 0 n)

    below : (k : ℕ) → k < n → k * block < p
    below k lt = omega (
      arith,
      div-mul-le_self (p + (block - 1)) block,
      mul-le-mul_right {m = k + 1} {n = n} block (omega arith),
    )
