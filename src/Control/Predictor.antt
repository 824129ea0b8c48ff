-- ===== src/Control/Predictor.antt =====
-- crates/demiurge-control/src/predictor.rs: the percentiles of the last 512 prompts.
use demiurge.Base.{
  ℕ, ◌-◌, ◌≤◌, ◌≡◌, refl, min, Bool, true, List, [], ◌∷◌, ◌++◌, leb, if◌then◌else◌, length, get_or,
  pop_front, length-append, length-pop_front, sort, sort-IsSorted, IsSorted-get_or, length-sort,
  every_below, every_below_lem, arith,
}
use demiurge.Base.Float.{mul_floor}
use demiurge.Cost.Kv.{kv_breakdown}

abbrev max_samples : ℕ
max_samples = 512

pub record LengthPredictor : Type 0 where
  pub samples : List ℕ

-- `record`
unfoldable pub record_length : ℕ → LengthPredictor → LengthPredictor
record_length prompt_tokens p = record {
  samples =
      (if leb max_samples (length p.samples) then pop_front p.samples else p.samples)
      ++ prompt_tokens ∷ [];
}

-- `p` is a double, as a numerator and a power of two.
pub percentile_at : List ℕ → ℕ × ℕ → ℕ
percentile_at [] p = 0
percentile_at (x ∷ xs) p =
    let v = sort (x ∷ xs) in get_or v (min (mul_floor p.0 p.1 (length v)) (length v - 1)) 0

-- 0.50, 0.90 and 0.99
pub p50 : LengthPredictor → ℕ
unfolding percentile_at
p50 p = percentile_at p.samples (1, 1)

unfoldable pub p90 : LengthPredictor → ℕ
unfolding percentile_at
p90 p = percentile_at p.samples (8106479329266893, 53)

pub p99 : LengthPredictor → ℕ
unfolding percentile_at
p99 p = percentile_at p.samples (4458563631096791, 52)

pub reserve_bytes_p90 : ℕ → LengthPredictor → ℕ
reserve_bytes_p90 bytes_per_token p = (kv_breakdown (p90 p) bytes_per_token).kv_reserved

abbrev ranks_test : ℕ → Bool
ranks_test n =
    if leb (mul_floor 1 1 n) (mul_floor 8106479329266893 53 n)
    then leb (mul_floor 8106479329266893 53 n) (mul_floor 4458563631096791 52 n)
    else leb 1 0

ranks_table : every_below ranks_test 513 ≡ true
unfolding every_below mul_floor
ranks_table = refl

ranks_ordered :
    (n : ℕ)
    → n ≤ 512
    → (mul_floor 1 1 n ≤ mul_floor 8106479329266893 53 n)
      × (mul_floor 8106479329266893 53 n ≤ mul_floor 4458563631096791 52 n)
ranks_ordered n h = ground (arith, every_below_lem ranks_test 513 n ranks_table (omega arith))

pub record_all : List ℕ → LengthPredictor → LengthPredictor
record_all [] p = p
record_all (n ∷ ns) p = record_all ns (record_length n p)

record_all-bounded :
    (ns : List ℕ) (p : LengthPredictor)
    → length p.samples ≤ 512
    → length (record_all ns p).samples ≤ 512
unfolding record_all record_length
record_all-bounded [] p h = h
record_all-bounded (n ∷ ns) p h = record_all-bounded ns (record_length n p) (
    ground (
      arith,
      length-append p.samples (n ∷ []),
      length-append (pop_front p.samples) (n ∷ []),
      length-pop_front p.samples,
    ))

percentile_at_mono :
    (xs : List ℕ) (m e m' e' : ℕ)
    → mul_floor m e (length xs) ≤ mul_floor m' e' (length xs)
    → percentile_at xs (m, e) ≤ percentile_at xs (m', e')
unfolding percentile_at
percentile_at_mono [] m e m' e' h = omega arith
percentile_at_mono (x ∷ xs) m e m' e' h = rw (length-sort (x ∷ xs)) (
    IsSorted-get_or (sort (x ∷ xs)) _ _ (sort-IsSorted (x ∷ xs)) (omega arith)
      (omega (arith, length-sort (x ∷ xs))))

-- After any prompts the median length is at most the 90th percentile, and that at most the 99th.
pub percentiles_ordered :
    (ns : List ℕ)
    → let p = record_all ns (record { samples = [] }) in (p50 p ≤ p90 p) × (p90 p ≤ p99 p)
unfolding p50 p90 p99
percentiles_ordered ns =
    let p = record_all ns (record { samples = [] }) in
    let ranks =
      ranks_ordered (length p.samples)
        (record_all-bounded ns (record { samples = [] }) (omega arith)) in
    (
      percentile_at_mono p.samples 1 1 8106479329266893 53 ranks.0,
      percentile_at_mono p.samples 8106479329266893 53 4458563631096791 52 ranks.1,
    )
