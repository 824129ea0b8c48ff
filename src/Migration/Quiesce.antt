-- ===== src/Migration/Quiesce.antt =====
-- The copy passes shrink what is dirty, and the estimate is what the final stop costs.
use demiurge.Base.{
  ℕ, zero, suc, ◌+◌, ◌-◌, ◌*◌, ◌^◌, ◌≤◌, ◌<◌, ◌≡◌, ◌⊎◌, inl, inr, ltb, Bool-cases, arith, div_ceil,
}
use native.Mathlib.Nat.{div-lt_iff_lt-mul, mul-le-mul_right}
use demiurge.Base.Float.{mul_floor, mul_floor_lt}
use demiurge.Migration.{QuiesceModel, chunk, copy_us, copy_passes, clamp_fraction, quiesce}

abbrev IsClamped : ℕ × ℕ → Type 0
IsClamped frac = frac.0 * 2 ^ 53 ≤ 9007190247541737 * 2 ^ frac.1

clamp_fraction-IsClamped : (frac : ℕ × ℕ) → IsClamped (clamp_fraction frac)
unfolding clamp_fraction
clamp_fraction-IsClamped frac = ground arith

-- Where the loop ends, from `dirty` bytes and with `left` passes to make.
record IsEnd (chunk left dirty passes : ℕ) (out : ℕ × ℕ) : Type 0 where
  made : passes ≤ out.1
  within : out.1 ≤ passes + left
  shrunk : out.0 + out.1 ≤ dirty + passes
  ended : (out.0 ≤ chunk) ⊎ (out.1 ≡ passes + left)

copy_passes-IsEnd :
    (frac : ℕ × ℕ) (chunk left dirty passes : ℕ)
    → IsClamped frac
    → IsEnd chunk left dirty passes (copy_passes frac chunk left dirty passes)
unfolding copy_passes
copy_passes-IsEnd frac chunk zero dirty passes h = record {
  made = omega arith;
  within = omega arith;
  shrunk = omega arith;
  ended = inr (omega arith);
}
copy_passes-IsEnd frac chunk (suc left) dirty passes h = elim (Bool-cases (ltb chunk dirty)) [
  | inl e ↦
      let fewer : mul_floor frac.0 frac.1 dirty < dirty =
        mul_floor_lt frac.0 frac.1 dirty h (ground arith) in
      let rest = copy_passes-IsEnd frac chunk left (mul_floor frac.0 frac.1 dirty) (passes + 1) h in
      record {
        made = ground (arith, rest.made);
        within = ground (arith, rest.within);
        shrunk = ground (arith, rest.shrunk);
        ended = ground (arith, rest.ended);
      }
  | inr e ↦ record {
    made = ground arith;
    within = ground arith;
    shrunk = ground arith;
    ended = inl (ground arith);
  }
]

-- The background passes are at most `max_passes`. Each copies and leaves fewer bytes dirty, so what
-- is left and the passes made are together at most the whole set; and what is left fits in a chunk
-- unless all passes were made.
pub quiesce_bounds :
    (m : QuiesceModel) (max_passes : ℕ)
    → ((quiesce m max_passes).passes ≤ max_passes)
      × ((quiesce m max_passes).residual_bytes + (quiesce m max_passes).passes ≤ m.total_bytes)
      × (((quiesce m max_passes).residual_bytes ≤ chunk m)
          ⊎ ((quiesce m max_passes).passes ≡ max_passes))
unfolding quiesce
quiesce_bounds m max_passes =
    (omega (arith, done.within), omega (arith, done.shrunk), ground (arith, done.ended))
  where
    done :
        IsEnd
          (chunk m)
          max_passes
          m.total_bytes
          0
          (copy_passes (clamp_fraction m.dirty_fraction) (chunk m) max_passes m.total_bytes 0)
    done =
        copy_passes-IsEnd (clamp_fraction m.dirty_fraction) (chunk m) max_passes m.total_bytes 0
          (clamp_fraction-IsClamped m.dirty_fraction)

-- One chunk at most takes one chunk's time at most.
copy_us_one_chunk : (m : QuiesceModel) (n : ℕ) → n ≤ chunk m → copy_us m n ≤ m.per_chunk_us
unfolding copy_us chunk
copy_us_one_chunk m n h =
    let few : div_ceil n (chunk m) < 2 =
      (div-lt_iff_lt-mul {k = chunk m} {x = n + (chunk m - 1)} {y = 2} (omega arith)).1
        (omega arith) in
    let few' : div_ceil n (chunk m) ≤ 1 = omega (arith, few) in
    omega (arith, mul-le-mul_right m.per_chunk_us few')

-- A set that can be copied in as many passes as it has bytes always comes down to one chunk, and the
-- final stop then takes at most one chunk's time.
pub quiesce_one_step :
    (m : QuiesceModel) (max_passes : ℕ)
    → m.total_bytes ≤ max_passes
    → ((quiesce m max_passes).residual_bytes ≤ chunk m)
      × ((quiesce m max_passes).est_stall_us ≤ m.per_chunk_us)
unfolding quiesce
quiesce_one_step m max_passes h =
    (fits, copy_us_one_chunk m (quiesce m max_passes).residual_bytes fits)
  where
    fits : (quiesce m max_passes).residual_bytes ≤ chunk m
    fits = ground (arith, quiesce_bounds m max_passes)
