-- ===== src/Control/Graduation.antt =====
-- crates/demiurge-control/src/corrector_grad.rs and corrector_shadow.rs beside it: the corrector is trained on what was observed, and
-- goes from shadow over canary to production. The counter of clamp events is telemetry and is left.
pub mod Stages
use demiurge.Base.{
  ℕ, zero, suc, ◌+◌, ◌-◌, ◌*◌, ◌/◌, ◌^◌, max, Bool, true, false, ◌&&◌, ◌||◌, not, Option, none,
  some, List, [], ◌∷◌, ◌++◌, String, ltb, leb, ◌==◌, if◌then◌else◌, length, get_or,
}
use demiurge.Base.F64.{F64}
use demiurge.Cost.Factors.{zero_f, one_f, alpha, corrector, time_core, cost_from_ln}

pub data GraduationStage : Type 0 where
  shadow canary production : GraduationStage

pub record GraduationStep : Type 0 where
  pub stage : GraduationStage
  pub rolled_back : Bool

module _ (D : F64) where
  pub record CorrectorShadowSample : Type 0 where
    pub prompt_tokens : ℕ
    pub analytic_ln : D.F
    pub observed_us : ℕ
    pub pool_pi : D.F
    pub backend_label : String

  abbrev observed_seconds : CorrectorShadowSample → D.F
  observed_seconds s = D.div (D.of_u64 s.observed_us) (D.of_u64 1000000)

  -- The ratios that the training loop collects, clamped to 1e-6 and 1e6.
  pub ratios : List CorrectorShadowSample → List D.F
  ratios [] = []
  ratios (s ∷ ss) =
      let rest = ratios ss in
      let predicted = D.exp s.analytic_ln in
      if s.observed_us == 0 || not (D.is_finite s.analytic_ln)
      then rest
      else if D.le predicted (zero_f D) || not (D.is_finite predicted)
      then rest
      else D.clamp (D.div (observed_seconds s) predicted) (D.literal 4722366482869645 72)
          (D.literal 1000000 0)
        ∷ rest

  -- A stable sort; the ratios are finite, so that any two compare.
  pub insert_ratio : D.F → List D.F → List D.F
  insert_ratio x [] = x ∷ []
  insert_ratio x (y ∷ ys) =
      let rest = insert_ratio x ys in if D.lt y x then y ∷ rest else x ∷ y ∷ ys

  unfoldable pub sort_ratios : List D.F → List D.F
  unfolding insert_ratio
  sort_ratios [] = []
  sort_ratios (x ∷ xs) = insert_ratio x (sort_ratios xs)

  pub median_delta : List D.F → D.F
  unfolding sort_ratios corrector
  median_delta [] = one_f D
  median_delta (x ∷ xs) =
      corrector D (get_or (sort_ratios (x ∷ xs)) (length (x ∷ xs) / 2) (one_f D))

  pub train_bounded_delta : List CorrectorShadowSample → D.F
  unfolding ratios median_delta
  train_bounded_delta samples = median_delta (ratios samples)

  -- The loop over the samples: how many improved, and how many count.
  pub count_improved : D.F → List CorrectorShadowSample → ℕ → ℕ → ℕ × ℕ
  unfolding time_core cost_from_ln
  count_improved delta [] improved total = (improved, total)
  count_improved delta (s ∷ ss) improved total =
      let observed = D.ln (time_core D (observed_seconds s)) in
      let err_id = D.abs (D.sub (cost_from_ln D s.analytic_ln) observed) in
      let err_corr = D.abs (D.sub (cost_from_ln D (D.add s.analytic_ln (D.ln delta))) observed) in
      let better = D.lt (D.add err_corr (D.literal 4951760157141521 92)) err_id in
      if s.observed_us == 0 || not (D.is_finite s.analytic_ln)
      then count_improved delta ss improved total
      else count_improved delta ss (if better then improved + 1 else improved) (total + 1)

  pub eval_goodput_improvement : List CorrectorShadowSample → D.F → D.F
  unfolding count_improved corrector
  eval_goodput_improvement samples delta =
      let (improved, total) = count_improved (corrector D delta) samples 0 0 in
      if total == 0 then zero_f D else D.div (D.of_u64 improved) (D.of_u64 total)

  pub record GraduationGate : Type 0 where
    pub max_violations : ℕ
    pub min_goodput_improvement : D.F

  pub is_clamp_saturated : D.F → Bool
  is_clamp_saturated delta =
      not (D.is_finite delta)
      || D.le delta (D.sub (one_f D) (alpha D))
      || D.le (D.add (one_f D) (alpha D)) delta

  pub eval_corrector_graduation : ℕ → D.F → GraduationGate → Bool
  eval_corrector_graduation violations goodput_delta gate =
      leb violations gate.max_violations && D.le gate.min_goodput_improvement goodput_delta

  -- One window's samples and the violations seen in it.
  pub is_healthy : List CorrectorShadowSample → ℕ → GraduationGate → Bool
  unfolding train_bounded_delta eval_goodput_improvement is_clamp_saturated
      eval_corrector_graduation
  is_healthy samples violations gate =
      let delta = train_bounded_delta samples in
      let goodput = eval_goodput_improvement samples delta in
      not (is_clamp_saturated delta) && eval_corrector_graduation violations goodput gate

  pub next_stage : GraduationStage → Bool → GraduationStage
  next_stage shadow true = canary
  next_stage canary true = production
  next_stage production true = production
  next_stage _ false = shadow

  abbrev is_shadow : GraduationStage → Bool
  is_shadow shadow = true
  is_shadow canary = false
  is_shadow production = false

  -- `GraduationController::evaluate`, whose state is its stage: the step, and the stage after it.
  pub evaluate :
      List CorrectorShadowSample
      → ℕ
      → GraduationGate
      → GraduationStage
      → GraduationStep × GraduationStage
  unfolding is_healthy next_stage
  evaluate samples violations gate stage =
      let healthy = is_healthy samples violations gate in
      let next = next_stage stage healthy in
      (record { stage = next; rolled_back = not healthy && not (is_shadow stage) }, next)
