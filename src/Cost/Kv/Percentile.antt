-- ===== src/Cost/Kv/Percentile.antt =====
-- `percentile90` picks the nearest rank of the sorted sample.
use mathlib.Core.Bool.{◌&&◌}
use demiurge.Base.{
  ℕ, every_below, every_below_lem, ◌+◌, ◌-◌, ◌*◌, ◌≤◌, ◌<◌, ◌≡◌, refl, Bool, true, List, [], ◌∷◌,
  length, get_or, All, All-get_or, All-sort, sort, sort-IsSorted, length-sort, count_p,
  count_p-sort, count_p-leb_index, count_p-ltb_index, leb, ltb, arith,
}
use demiurge.Base.Float.{mul_ceil}
use demiurge.Cost.Kv.{rank90, percentile90}

-- `rank90 n` is nine tenths of `n`, rounded up.
abbrev rank90_test : ℕ → Bool
rank90_test n = leb (9 * n) (10 * rank90 n) && ltb (10 * rank90 n) (9 * n + 10)

rank90_table : every_below rank90_test 257 ≡ true
unfolding every_below rank90 mul_ceil
rank90_table = refl

pub rank90_bounds : (n : ℕ) → n ≤ 256 → (9 * n ≤ 10 * rank90 n) × (10 * rank90 n < 9 * n + 10)
rank90_bounds n h = ground (arith, every_below_lem rank90_test 257 n rank90_table (omega arith))

percentile90-get_or :
    (xs : List ℕ) → 0 < length xs → percentile90 xs ≡ get_or (sort xs) (rank90 (length xs) - 1) 0
unfolding percentile90
percentile90-get_or [] h = absurd (omega arith)
percentile90-get_or (x ∷ xs) h = ground (arith, length-sort (x ∷ xs))

rank90_index :
    (xs : List ℕ) → 0 < length xs → length xs ≤ 256 → rank90 (length xs) - 1 < length (sort xs)
rank90_index xs p h = omega (arith, rank90_bounds (length xs) h, length-sort xs)

-- What holds of every sample holds of the percentile: it is one of the samples.
pub percentile90-All :
    (P : ℕ → Type 0) (xs : List ℕ)
    → 0 < length xs
    → length xs ≤ 256
    → All P xs
    → P (percentile90 xs)
percentile90-All P xs p h all =
    rw (percentile90-get_or xs p)
      (All-get_or P (sort xs) _ 0 (All-sort P xs all) (rank90_index xs p h))

-- At least nine tenths of the samples are at most the percentile, and fewer than nine tenths are
-- below it.
pub percentile90_rank :
    (xs : List ℕ)
    → 0 < length xs
    → length xs ≤ 256
    → (9 * length xs ≤ 10 * count_p (λ y. leb y (percentile90 xs)) xs)
      × (10 * count_p (λ y. ltb y (percentile90 xs)) xs < 9 * length xs)
percentile90_rank xs p h = rw (percentile90-get_or xs p) (
    omega (
      arith,
      rank90_bounds (length xs) h,
      count_p-sort (λ y. leb y (get_or (sort xs) i 0)) xs,
      count_p-sort (λ y. ltb y (get_or (sort xs) i 0)) xs,
      count_p-leb_index (sort xs) i (sort-IsSorted xs) (rank90_index xs p h),
      count_p-ltb_index (sort xs) i (sort-IsSorted xs) (rank90_index xs p h),
    ))
  where
    i : ℕ
    i = rank90 (length xs) - 1
