-- ===== src/Router/Plane/Tick.antt =====
-- crates/demiurge-router/src/lib.rs: the maintenance of the control plane after a request. What a tick
-- reads of the clocks, the lock and the kernel's link is an argument.
pub mod Apart
pub mod Shadowed
use demiurge.Base.{
  ℕ, ◌+◌, ◌-◌, Bool, true, false, ◌&&◌, ◌||◌, not, Option, none, some, List, [], ◌∷◌, ltb, leb,
  if◌then◌else◌, Bytes, saturating_add, wrapping_add,
}
use demiurge.Base.F64.{F64}
use demiurge.Control.Pairing.{pairing_regret_targets}
use demiurge.Control.Predictor.{record_length, p90}
use demiurge.Control.Rebalancer.{
  PoolPressure, PoolRebalancer, compute_pi_star, maybe_update, shadow_pi_star, force_actuate,
}
use demiurge.Control.Shadow.{log_len}
use demiurge.Dataplane.Rcu.{RcuRoutingTable, publish_pi, generation_of, read_pi, age_ms, is_stale}
use demiurge.Router.Backend.{Backend, backend_target}
use demiurge.Router.Backend.Select.{routing_transfer_penalty}
use demiurge.Router.Plane.{Router, ControlPlane, routing_snapshot}
use demiurge.Router.Plane.Counters.{
  maybe_sync_admit_for_pi, check_kernel_admit_link, total_admit_shed,
}
use demiurge.Router.Plane.Pick.{pool_pressure}

abbrev pub heartbeat_ms : ℕ
heartbeat_ms = 250

abbrev pub stale_alert_ms : ℕ
stale_alert_ms = 500

-- The readings of one tick, in the order of the source.
pub record Readings : Type 0 where
  pub start_ms : ℕ
  pub lock_free : Bool
  pub now : ℕ
  pub publish_ms : ℕ
  pub check_ms : ℕ
  pub beat_ms : ℕ
  pub link_alive : Bool

abbrev pub has_tokens : Option ℕ → Bool
has_tokens none = false
has_tokens (some tokens) = true

module _ (D : F64) where
  -- `self.dataplane.publish(DataPlaneSnapshot::new(generation + 1, pi))`
  unfoldable pub publish_share : ℕ → D.F → Router D → Router D
  unfolding publish_pi generation_of
  publish_share now_ms pi r = record r {
    dataplane = publish_pi D now_ms (saturating_add (generation_of D r.dataplane) 1) pi r.dataplane;
  }

  -- A part of all routes, if there were any.
  abbrev pub ratio_or : ℕ → ℕ → D.F → D.F
  ratio_or part whole default =
      if ltb 0 whole then D.div (D.of_u64 part) (D.of_u64 whole) else default

  abbrev pub fast_path_share : Router D → D.F → D.F
  fast_path_share r default =
      ratio_or r.colocated_routes (saturating_add r.colocated_routes r.disagg_routes) default

  unfoldable pub is_rebalance_due : ℕ → Bool → Router D → Bool
  unfolding age_ms
  is_rebalance_due start_ms sample_regret r =
      sample_regret || r.rebalancer_actuation || leb heartbeat_ms (age_ms D start_ms r.dataplane)

  unfoldable pub tick_predictor : Option ℕ → Router D → Router D
  unfolding record_length
  tick_predictor none r = r
  tick_predictor (some tokens) r = record r {
    control = record r.control { predictor = record_length tokens r.control.predictor };
  }

  -- What an update answers is published.
  abbrev pub publish_update : ℕ → Option D.F → Router D → Router D
  publish_update now_ms none r = r
  publish_update now_ms (some pi) r = publish_share now_ms pi r

  unfoldable pub tick_rebalance : Readings → Router D → Router D
  unfolding pool_pressure shadow_pi_star maybe_update publish_share maybe_sync_admit_for_pi
  tick_rebalance t r =
      let signals = pool_pressure D r (fast_path_share r (D.literal 1 1)) in
      let (update, rebalancer) = maybe_update D t.now signals r.control.rebalancer in
      let r' = record r {
        control = record r.control {
          last_pi_star = shadow_pi_star D signals r.control.rebalancer;
          rebalancer = rebalancer;
        };
      } in
      if r.rebalancer_actuation
      then maybe_sync_admit_for_pi D rebalancer.pi (publish_update t.publish_ms update r')
      else r'

  unfoldable pub tick_heartbeat : Readings → Router D → Router D
  unfolding age_ms publish_share check_kernel_admit_link maybe_sync_admit_for_pi
  tick_heartbeat t r =
      let pi = r.control.rebalancer.pi in
      let beaten = check_kernel_admit_link D t.link_alive (publish_share t.beat_ms pi r) in
      if leb heartbeat_ms (age_ms D t.check_ms r.dataplane)
      then (if beaten.rebalancer_actuation || beaten.kernel_attached
          then maybe_sync_admit_for_pi D pi beaten
          else beaten)
      else r

  abbrev pub both_pools : Router D → Bool
  both_pools r = elim r.prefill [ [] ↦ false | _ ∷ _ ↦ elim r.decode [ [] ↦ false | _ ∷ _ ↦ true ] ]

  module _ (mac : Bytes → Bytes) (salt_block : ℕ → ℕ → ℕ) where
    unfoldable pub tick_regret : Option ℕ → Router D → Router D
    unfolding pairing_regret_targets routing_snapshot
    tick_regret none r = r
    tick_regret (some tokens) r =
        let regret =
          pairing_regret_targets D (backend_target D mac salt_block) r.prefill r.decode
            (routing_snapshot D r) tokens (routing_transfer_penalty D) in
        if both_pools r
        then record r {
          control = record r.control {
            regret_sum = D.add r.control.regret_sum regret;
            regret_samples = wrapping_add r.control.regret_samples 1;
          };
        }
        else r

    -- What follows the prediction, where the rebalancer is due.
    unfoldable pub tick_due : Readings → Option ℕ → Bool → Router D → Router D
    unfolding tick_rebalance tick_heartbeat tick_regret
    tick_due t prompt_tokens sample_regret r =
        let beaten = tick_heartbeat t (tick_rebalance t r) in
        if sample_regret then tick_regret prompt_tokens beaten else beaten

    unfoldable pub deferred_control_tick : Readings → Option ℕ → Bool → Router D → Router D
    unfolding is_rebalance_due tick_predictor tick_due
    deferred_control_tick t prompt_tokens sample_regret r =
        let due = is_rebalance_due t.start_ms sample_regret r in
        if not (has_tokens prompt_tokens) && not due
        then r
        else if not t.lock_free
        then r
        else if due
        then tick_due t prompt_tokens sample_regret (tick_predictor prompt_tokens r)
        else tick_predictor prompt_tokens r

  unfoldable pub actuate_from_trace_pressure : ℕ → ℕ → PoolPressure D → Router D → Router D
  unfolding compute_pi_star force_actuate publish_share maybe_sync_admit_for_pi
  actuate_from_trace_pressure now now_ms signals r =
      let pi_star = compute_pi_star D signals r.control.rebalancer in
      let forced = (force_actuate D now pi_star r.control.rebalancer).1 in
      if r.rebalancer_actuation
      then maybe_sync_admit_for_pi D pi_star (
          publish_share now_ms pi_star (record r {
            control = record r.control { last_pi_star = pi_star; rebalancer = forced };
          }))
      else record r { control = record r.control { last_pi_star = pi_star } }

  pub record ControlMetrics : Type 0 where
    pub pi : D.F
    pub pi_star : D.F
    pub pairing_regret_mean : D.F
    pub pairing_regret_samples : ℕ
    pub predictor_p90_tokens : ℕ
    pub dataplane_pi : D.F
    pub dataplane_age_ms : ℕ
    pub rcu_stale : Bool
    pub rcu_stale_alert_ms : ℕ
    pub admit_shed_total : ℕ
    pub fast_path_ratio : D.F
    pub colocated_routes : ℕ
    pub disagg_routes : ℕ
    pub fastpath_misroute_mean : D.F
    pub fastpath_misroute_samples : ℕ
    pub corrector_shadow_samples : ℕ
    pub rdma_cost_shadow_samples : ℕ

  abbrev mean_of : D.F → ℕ → D.F
  mean_of sum samples = if ltb 0 samples then D.div sum (D.of_u64 samples) else D.literal 0 0

  -- By the clock at the two readings of the table's age, and the kernel's count of what it shed.
  pub control_metrics : ℕ → ℕ → ℕ → Router D → ControlMetrics
  unfolding p90 read_pi age_ms is_stale total_admit_shed log_len
  control_metrics age_at_ms stale_at_ms kernel_shed r =
      let cp = r.control in
      record {
        pi = cp.rebalancer.pi;
        pi_star = cp.last_pi_star;
        pairing_regret_mean = mean_of cp.regret_sum cp.regret_samples;
        pairing_regret_samples = cp.regret_samples;
        predictor_p90_tokens = p90 cp.predictor;
        dataplane_pi = read_pi D r.dataplane;
        dataplane_age_ms = age_ms D age_at_ms r.dataplane;
        rcu_stale = is_stale D stale_at_ms stale_alert_ms r.dataplane;
        rcu_stale_alert_ms = stale_alert_ms;
        admit_shed_total = total_admit_shed D kernel_shed r;
        fast_path_ratio = fast_path_share r (D.literal 0 0);
        colocated_routes = r.colocated_routes;
        disagg_routes = r.disagg_routes;
        fastpath_misroute_mean = mean_of cp.fastpath_misroute_sum cp.fastpath_misroute_samples;
        fastpath_misroute_samples = cp.fastpath_misroute_samples;
        corrector_shadow_samples = log_len cp.corrector_shadow;
        rdma_cost_shadow_samples = log_len cp.rdma_cost_shadow;
      }
