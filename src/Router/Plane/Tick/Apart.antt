-- ===== src/Router/Plane/Tick/Apart.antt =====
-- The tick of the control plane is apart from the ledger: it leaves every reservation.
use demiurge.Base.{
  ℕ, ◌≡◌, refl, ◌∙◌, ◌&&◌, ◌||◌, Bool, true, false, not, Option, none, some, leb, ◌==◌,
  if◌then◌else◌, Bytes,
}
use demiurge.Base.F64.{F64}
use demiurge.Control.Rebalancer.{maybe_update, shadow_pi_star}
use demiurge.Dataplane.Rcu.{age_ms, admit_capacity_for_pi}
use demiurge.Ledger.{ReservationLedger}
use demiurge.Router.Plane.{Router, dataplane_admit_burst}
use demiurge.Router.Plane.Counters.{
  sync_admit_capacity, maybe_sync_admit_for_pi, check_kernel_admit_link,
}
use demiurge.Router.Plane.Pick.{pool_pressure}
use demiurge.Router.Plane.Tick.{
  fast_path_share, Readings, publish_share, publish_update, tick_predictor, tick_rebalance,
  tick_heartbeat, tick_regret, tick_due, deferred_control_tick, is_rebalance_due, has_tokens,
  both_pools, heartbeat_ms,
}

module _ (D : F64) where
  abbrev pub Kept : Option ReservationLedger → Router D → Type 0
  Kept ledger r = r.ledger ≡ ledger

  pub either-Kept :
      (l : Option ReservationLedger) (b : Bool) (x y : Router D)
      → Kept l x
      → Kept l y
      → Kept l (if b then x else y)
  either-Kept l true x y h k = h
  either-Kept l false x y h k = k

  maybe_sync-Kept : (pi : D.F) (r : Router D) → Kept r.ledger (maybe_sync_admit_for_pi D pi r)
  unfolding maybe_sync_admit_for_pi sync_admit_capacity
  maybe_sync-Kept pi r =
      let cap = admit_capacity_for_pi D dataplane_admit_burst pi in
      either-Kept r.ledger (cap == r.last_admit_capacity) r
        (sync_admit_capacity D cap (record r { last_admit_capacity = cap })) refl refl

  publish_update-Kept :
      (now : ℕ) (update : Option D.F) (r : Router D) → Kept r.ledger (publish_update D now update r)
  unfolding publish_share
  publish_update-Kept now none r = refl
  publish_update-Kept now (some pi) r = refl

  tick_heartbeat-Kept : (t : Readings) (r : Router D) → Kept r.ledger (tick_heartbeat D t r)
  unfolding tick_heartbeat check_kernel_admit_link publish_share
  tick_heartbeat-Kept t r =
      let pi = r.control.rebalancer.pi in
      let beaten = check_kernel_admit_link D t.link_alive (publish_share D t.beat_ms pi r) in
      let synced = maybe_sync_admit_for_pi D pi beaten in
      let wanted = beaten.rebalancer_actuation || beaten.kernel_attached in
      either-Kept r.ledger (leb heartbeat_ms (age_ms D t.check_ms r.dataplane))
        (if wanted then synced else beaten) r
        (either-Kept r.ledger wanted synced beaten (maybe_sync-Kept pi beaten) refl) refl

  tick_rebalance-Kept : (t : Readings) (r : Router D) → Kept r.ledger (tick_rebalance D t r)
  unfolding tick_rebalance
  tick_rebalance-Kept t r =
      let signals = pool_pressure D r (fast_path_share D r (D.literal 1 1)) in
      let answer = maybe_update D t.now signals r.control.rebalancer in
      let r' = record r {
        control = record r.control {
          last_pi_star = shadow_pi_star D signals r.control.rebalancer;
          rebalancer = answer.1;
        };
      } in
      let published = publish_update D t.publish_ms answer.0 r' in
      either-Kept r.ledger r.rebalancer_actuation (maybe_sync_admit_for_pi D answer.1.pi published)
        r' (maybe_sync-Kept answer.1.pi published ∙ publish_update-Kept t.publish_ms answer.0 r')
        refl

  tick_predictor-Kept :
      (prompt_tokens : Option ℕ) (r : Router D) → Kept r.ledger (tick_predictor D prompt_tokens r)
  unfolding tick_predictor
  tick_predictor-Kept none r = refl
  tick_predictor-Kept (some tokens) r = refl

  module _ (mac : Bytes → Bytes) (salt_block : ℕ → ℕ → ℕ) where
    tick_regret-Kept :
        (prompt_tokens : Option ℕ) (r : Router D)
        → Kept r.ledger (tick_regret D mac salt_block prompt_tokens r)
    unfolding tick_regret
    tick_regret-Kept none r = refl
    tick_regret-Kept (some tokens) r = either-Kept r.ledger (both_pools D r) _ r refl refl

    tick_due-Kept :
        (t : Readings) (prompt_tokens : Option ℕ) (sample_regret : Bool) (r : Router D)
        → Kept r.ledger (tick_due D mac salt_block t prompt_tokens sample_regret r)
    unfolding tick_due
    tick_due-Kept t prompt_tokens sample_regret r =
        let beaten = tick_heartbeat D t (tick_rebalance D t r) in
        let h = tick_heartbeat-Kept t (tick_rebalance D t r) ∙ tick_rebalance-Kept t r in
        either-Kept r.ledger sample_regret (tick_regret D mac salt_block prompt_tokens beaten)
          beaten (tick_regret-Kept prompt_tokens beaten ∙ h) h

    pub deferred_control_tick-Kept :
        (t : Readings) (prompt_tokens : Option ℕ) (sample_regret : Bool) (r : Router D)
        → Kept r.ledger (deferred_control_tick D mac salt_block t prompt_tokens sample_regret r)
    unfolding deferred_control_tick
    deferred_control_tick-Kept t prompt_tokens sample_regret r =
        let h = tick_predictor-Kept prompt_tokens r in
        let predicted = tick_predictor D prompt_tokens r in
        let ticked = tick_due D mac salt_block t prompt_tokens sample_regret predicted in
        let due = is_rebalance_due D t.start_ms sample_regret r in
        let last = if due then ticked else predicted in
        either-Kept r.ledger (not (has_tokens prompt_tokens) && not due) r
          (if not t.lock_free then r else last) refl
          (either-Kept r.ledger (not t.lock_free) r last refl (
            either-Kept r.ledger due ticked predicted
              (tick_due-Kept t prompt_tokens sample_regret predicted ∙ h) h))
