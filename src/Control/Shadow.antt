-- ===== src/Control/Shadow.antt =====
-- crates/demiurge-control/src/corrector_shadow.rs and rdma_cost_shadow.rs beside it: the two logs of
-- samples, a ring each, and how far the time of a transfer was from what was predicted. A log that `new`
-- made holds a sample at least, so that the removal of the first finds one.
use demiurge.Base.{
  ℕ, ◌/◌, max, ◌||◌, not, List, [], ◌∷◌, ◌++◌, String, leb, if◌then◌else◌, length, get_or,
  pop_front,
}
use demiurge.Base.F64.{F64}
use demiurge.Control.Graduation.{CorrectorShadowSample, sort_ratios}

pub record ShadowLog (S : Type 0) : Type 0 where
  pub inner : List S
  pub max_samples : ℕ

module _ {S : Type 0} where
  unfoldable pub new_log : ℕ → ShadowLog S
  new_log max_samples = record { inner = []; max_samples = max max_samples 1 }

  -- `record`
  unfoldable pub record_shadow : S → ShadowLog S → ShadowLog S
  record_shadow sample log = record log {
    inner =
        (if leb log.max_samples (length log.inner) then pop_front log.inner else log.inner)
        ++ sample ∷ [];
  }

  unfoldable pub log_len : ShadowLog S → ℕ
  log_len log = length log.inner

module _ (D : F64) where
  abbrev pub CorrectorShadowLog : Type 0
  CorrectorShadowLog = ShadowLog (CorrectorShadowSample D)

  pub record RdmaCostShadowSample : Type 0 where
    pub pf_label : String
    pub dc_label : String
    pub distance : ℕ
    pub kv_bytes : ℕ
    pub analytic_transfer_ln : D.F
    pub flat_penalty_ln : D.F
    pub observed_transfer_secs : D.F

  abbrev pub RdmaCostShadowLog : Type 0
  RdmaCostShadowLog = ShadowLog RdmaCostShadowSample

  -- The ratios of the loop of `eval_transfer_ratio_median`, clamped to 1e-6 and 1e6.
  pub transfer_ratios : List RdmaCostShadowSample → List D.F
  transfer_ratios [] = []
  transfer_ratios (s ∷ ss) =
      let rest = transfer_ratios ss in
      let predicted = D.exp s.analytic_transfer_ln in
      if D.le s.observed_transfer_secs (D.literal 0 0) || not (D.is_finite s.analytic_transfer_ln)
      then rest
      else if D.le predicted (D.literal 0 0) || not (D.is_finite predicted)
      then rest
      else D.clamp (D.div s.observed_transfer_secs predicted) (D.literal 4722366482869645 72)
          (D.literal 1000000 0)
        ∷ rest

  pub median_ratio : List D.F → D.F
  unfolding sort_ratios
  median_ratio [] = D.literal 1 0
  median_ratio (r ∷ rs) = get_or (sort_ratios D (r ∷ rs)) (length (r ∷ rs) / 2) (D.literal 1 0)

  pub eval_transfer_ratio_median : List RdmaCostShadowSample → D.F
  unfolding transfer_ratios median_ratio
  eval_transfer_ratio_median samples = median_ratio (transfer_ratios samples)
