-- ===== src/Control/Rebalancer/Cooldown.antt =====
-- The share changes at most once in a cooldown, and never in shadow mode.
use demiurge.Base.{ℕ, ◌+◌, ◌≤◌, none, some, List, [], ◌∷◌}
use demiurge.Base.F64.{F64}
use demiurge.Control.Rebalancer.{PoolPressure, PoolRebalancer, maybe_update, cooldown}

module _ (D : F64) where
  -- The calls of `maybe_update` in turn, each with the clock's reading.
  pub run : List (ℕ × PoolPressure D) → PoolRebalancer D → PoolRebalancer D
  run [] r = r
  run ((now, s) ∷ calls) r = run calls (maybe_update D now s r).1

  -- The readings at which the share changed, in turn.
  pub changes : List (ℕ × PoolPressure D) → PoolRebalancer D → List ℕ
  changes [] r = []
  changes ((now, s) ∷ calls) r =
      let rest = changes calls (maybe_update D now s r).1 in
      elim (maybe_update D now s r).0 [ none ↦ rest | some pi ↦ now ∷ rest ]

  -- Each is at least a cooldown after the one before, and the first after the last change so far.
  abbrev pub Spaced : ℕ → List ℕ → Type 0
  Spaced last [] = Unit {0}
  Spaced last (t ∷ ts) = (last + cooldown ≤ t) × Spaced t ts
