-- ===== src/Control/Graduation/Stages.antt =====
-- The stage is the number of healthy windows since the last unhealthy one, up to two.
use demiurge.Base.{
  ℕ, zero, suc, ◌≡◌, refl, ap, ◌∙◌, Bool, true, false, List, [], ◌∷◌, if◌then◌else◌,
}
use demiurge.Base.F64.{F64}
use demiurge.Control.Graduation.{
  GraduationStage, shadow, canary, production, CorrectorShadowSample, GraduationGate, is_healthy,
  next_stage, evaluate,
}

-- The stage after a streak of healthy windows
abbrev pub stage_of : ℕ → GraduationStage
stage_of zero = shadow
stage_of (suc zero) = canary
stage_of (suc (suc n)) = production

module _ (D : F64) where
  -- A window: its samples and the violations in it.
  abbrev pub Window : Type 0
  Window = List (CorrectorShadowSample D) × ℕ

  -- The stage after the windows in turn, under one gate.
  pub run : GraduationGate D → List Window → GraduationStage → GraduationStage
  run gate [] stage = stage
  run gate ((samples, violations) ∷ ws) stage =
      run gate ws (evaluate D samples violations gate stage).1

  -- How many windows up to the last are healthy, counted on from `n` before the first.
  pub streak : GraduationGate D → List Window → ℕ → ℕ
  streak gate [] n = n
  streak gate ((samples, violations) ∷ ws) n =
      streak gate ws (if is_healthy D samples violations gate then suc n else 0)

  next_stage-streak :
      (healthy : Bool) (n : ℕ)
      → next_stage D (stage_of n) healthy ≡ stage_of (if healthy then suc n else 0)
  unfolding next_stage
  next_stage-streak true zero = refl
  next_stage-streak true (suc zero) = refl
  next_stage-streak true (suc (suc n)) = refl
  next_stage-streak false n = refl

  run-streak :
      (gate : GraduationGate D) (ws : List Window) (n : ℕ)
      → run gate ws (stage_of n) ≡ stage_of (streak gate ws n)
  unfolding run streak evaluate
  run-streak gate [] n = refl
  run-streak gate ((samples, violations) ∷ ws) n =
      ap (run gate ws) (next_stage-streak (is_healthy D samples violations gate) n)
      ∙ run-streak gate ws (if is_healthy D samples violations gate then suc n else 0)

  -- From shadow, the corrector is in production after any windows just if the last two at least were
  -- healthy, in canary if the last one was and the one before was not, and in shadow otherwise: one
  -- window that saturates the clamp or fails the gate takes it all the way back.
  pub run-stage_of :
      (gate : GraduationGate D) (ws : List Window)
      → run gate ws shadow ≡ stage_of (streak gate ws 0)
  run-stage_of gate ws = run-streak gate ws 0
