-- ===== src/Control/Fleet.antt =====
-- crates/demiurge-control/src/fleet_pilot.rs: a trace is replayed against the rebalancer, and its gate
-- is judged on the windows that were held out.
pub mod Sim
pub mod HeldOut
pub mod Jitter
mod Tests
use demiurge.Base.{
  ℕ, ◌+◌, Bool, true, false, ◌&&◌, ◌||◌, not, List, [], ◌∷◌, ltb, ◌==◌, if◌then◌else◌, length, map,
  filter,
}
use demiurge.Base.F64.{F64}
use demiurge.Control.Rebalancer.{PoolPressure, RebalancerMode, shadow, shadow_pi_star, new}

module _ (D : F64) where
  pub record TraceWindow : Type 0 where
    pub ts_ms : ℕ
    pub q_prefill : D.F
    pub q_decode : D.F
    pub kv_decode : D.F
    pub slo_prefill : D.F
    pub slo_decode : D.F
    pub fp_share : D.F
    pub prefill_heavy : Bool
    pub held_out : Bool

  -- `clamp(0.0, 1.0)`
  abbrev pub unit_clamp : D.F → D.F
  unit_clamp x = D.clamp x (D.literal 0 0) (D.literal 1 0)

  unfoldable pub pressure : TraceWindow → PoolPressure D
  pressure w = record {
    q_prefill = unit_clamp w.q_prefill;
    q_decode = unit_clamp w.q_decode;
    kv_decode = unit_clamp w.kv_decode;
    slo_prefill = unit_clamp w.slo_prefill;
    slo_decode = unit_clamp w.slo_decode;
    fp_share = unit_clamp w.fp_share;
  }

  pub record WindowReplay : Type 0 where
    pub ts_ms : ℕ
    pub pi_star : D.F
    pub prefill_heavy : Bool
    pub held_out : Bool

  pub record FleetPilotReport : Type 0 where
    pub train_windows : ℕ
    pub heldout_windows : ℕ
    pub heldout_correlation : D.F
    pub heldout_mean_pi_heavy : D.F
    pub heldout_mean_pi_light : D.F
    pub gate_pass : Bool
    pub replays : List WindowReplay

  -- The variables of the loop of `point_biserial_corr`.
  pub record Moments : Type 0 where
    pub n1 : ℕ
    pub n0 : ℕ
    pub sum1 : D.F
    pub sum0 : D.F
    pub sq : D.F

  abbrev no_moments : Moments
  no_moments = record {
    n1 = 0;
    n0 = 0;
    sum1 = D.literal 0 0;
    sum0 = D.literal 0 0;
    sq = D.literal 0 0;
  }

  pub moments : D.F → Moments → List D.F → List Bool → Moments
  moments mean m [] labels = m
  moments mean m (v ∷ vs) [] = m
  moments mean m (v ∷ vs) (lab ∷ labels) =
      let sq = D.add m.sq (D.square (D.sub v mean)) in
      let one : Moments = record m { n1 = m.n1 + 1; sum1 = D.add m.sum1 v; sq = sq } in
      let zero : Moments = record m { n0 = m.n0 + 1; sum0 = D.add m.sum0 v; sq = sq } in
      moments mean (if lab then one else zero) vs labels

  -- `iter().sum::<f64>()`, from what was summed before
  pub sum_from : D.F → List D.F → D.F
  sum_from s [] = s
  sum_from s (v ∷ vs) = sum_from (D.add s v) vs

  -- The end of `point_biserial_corr`, after its loop.
  pub correlation : D.F → Moments → D.F
  correlation n m =
      let mean1 = D.div m.sum1 (D.of_u64 m.n1) in
      let mean0 = D.div m.sum0 (D.of_u64 m.n0) in
      let std = D.sqrt (D.div m.sq n) in
      let p = D.div (D.of_u64 m.n1) n in
      let q = D.sub (D.literal 1 0) p in
      if m.n1 == 0 || m.n0 == 0
      then D.literal 0 0
      else if D.le std (D.literal 4951760157141521 92)
      then D.literal 0 0
      else D.mul (D.div (D.sub mean1 mean0) std) (D.sqrt (D.mul p q))

  unfoldable pub point_biserial_corr : List D.F → List Bool → D.F
  unfolding moments sum_from correlation
  point_biserial_corr values labels =
      let n = D.of_u64 (length values) in
      let mean_all = D.div (sum_from D.empty_sum values) n in
      if not (length values == length labels) || ltb (length values) 2
      then D.literal 0 0
      else correlation n (moments mean_all no_moments values labels)

  -- By a rebalancer that was made at the clock's reading.
  unfoldable pub replay : ℕ → TraceWindow → WindowReplay
  unfolding pressure
  replay now w = record {
    ts_ms = w.ts_ms;
    pi_star = shadow_pi_star D (pressure w) (new D shadow now);
    prefill_heavy = w.prefill_heavy;
    held_out = w.held_out;
  }

  -- `sum_heavy`, `n_heavy`, `sum_light` and `n_light`, by the label
  pub tally : Bool → D.F → ℕ → List WindowReplay → D.F × ℕ
  tally heavy sum n [] = (sum, n)
  tally heavy sum n (r ∷ rs) =
      let same = if heavy then r.prefill_heavy else not r.prefill_heavy in
      let counted = tally heavy (D.add sum r.pi_star) (n + 1) rs in
      let passed = tally heavy sum n rs in if same then counted else passed

  pub mean_pi : Bool → List WindowReplay → D.F
  unfolding tally
  mean_pi heavy held =
      let (sum, n) = tally heavy (D.literal 0 0) 0 held in
      if ltb 0 n then D.div sum (D.of_u64 n) else D.literal 0 0

  unfoldable pub replay_fleet_pilot : ℕ → List TraceWindow → D.F → FleetPilotReport
  unfolding replay point_biserial_corr mean_pi filter
  replay_fleet_pilot now windows min_correlation =
      let replays = map (replay now) windows in
      let held = filter (λ r. r.held_out) replays in
      let corr =
        point_biserial_corr (map (λ r. r.pi_star) held) (map (λ r. r.prefill_heavy) held) in
      let mean_heavy = mean_pi true held in
      let mean_light = mean_pi false held in
      let separation = D.lt (D.add mean_light (D.literal 3602879701896397 56)) mean_heavy in
      let heldout = length (filter (λ w. w.held_out) windows) in
      record {
        train_windows = length (filter (λ w. not w.held_out) windows);
        heldout_windows = heldout;
        heldout_correlation = corr;
        heldout_mean_pi_heavy = mean_heavy;
        heldout_mean_pi_light = mean_light;
        gate_pass = D.le min_correlation corr && separation && ltb 0 heldout;
        replays = replays;
      }
