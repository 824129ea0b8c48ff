-- ===== src/Router/Plane/Tick/Shadowed.antt =====
-- A router that only the environment told to actuate. Its rebalancer is made in shadow mode, which no tick
-- leaves: only `with_rebalancer_actuation` makes one that may actuate.
use demiurge.Base.{
  ℕ, ◌≡◌, refl, ap, Bool, true, false, Option, none, some, List, [], ◌∷◌, not, ◌&&◌, ◌||◌, ◌==◌,
  leb, if◌then◌else◌, Bytes, arith,
}
use demiurge.Base.F64.{F64}
use demiurge.Control.Rebalancer.{PoolPressure, PoolRebalancer, shadow, maybe_update, shadow_pi_star}
use demiurge.Control.Rebalancer
use demiurge.Dataplane.Rcu.{
  RcuRoutingTable, publish_pi, new_snapshot, publish, read_pi, age_ms, admit_capacity_for_pi,
}
use demiurge.Dataplane.Rcu
use demiurge.Router.Backend.{Backend}
use demiurge.Router.Plane.{
  Router, Settings, new, dataplane_admit_burst, with_kv_pool, default_control,
}
use demiurge.Router.Plane.Counters.{
  maybe_sync_admit_for_pi, sync_admit_capacity, check_kernel_admit_link,
}
use demiurge.Router.Plane.Pick.{pool_pressure}
use demiurge.Router.Plane.Tick.{
  fast_path_share, Readings, publish_share, tick_predictor, tick_rebalance, tick_heartbeat,
  tick_regret, tick_due, deferred_control_tick, is_rebalance_due, has_tokens, both_pools,
  heartbeat_ms,
}

module _ (D : F64) where
  abbrev half : D.F
  half = D.literal 1 1

  -- The rebalancer is in shadow mode at one half, and so is what the data plane reads.
  record StillAt (rebalancer : PoolRebalancer D) (table : RcuRoutingTable D) : Type 0 where
    in_shadow : rebalancer.mode ≡ shadow
    at_half : rebalancer.pi ≡ half
    reads_half : table.current.pi ≡ D.clamp half (D.literal 0 0) (D.literal 1 0)

  abbrev Still : Router D → Type 0
  Still r = StillAt r.control.rebalancer r.dataplane

  either-Still : (b : Bool) (x y : Router D) → Still x → Still y → Still (if b then x else y)
  either-Still true x y h k = h
  either-Still false x y h k = k

  maybe_update_shadow :
      (now : ℕ) (s : PoolPressure D) (r : PoolRebalancer D)
      → r.mode ≡ shadow
      → maybe_update D now s r ≡ (none, r)
  unfolding maybe_update
  maybe_update_shadow now s r e = rw (e) (ground arith)

  maybe_sync-Still : (pi : D.F) (r : Router D) → Still r → Still (maybe_sync_admit_for_pi D pi r)
  unfolding maybe_sync_admit_for_pi sync_admit_capacity
  maybe_sync-Still pi r h =
      let cap = admit_capacity_for_pi D dataplane_admit_burst pi in
      either-Still (cap == r.last_admit_capacity) r
        (sync_admit_capacity D cap (record r { last_admit_capacity = cap })) h h

  publish_share-Still :
      (now : ℕ) (r : Router D) → Still r → Still (publish_share D now r.control.rebalancer.pi r)
  unfolding publish_share publish_pi new_snapshot publish
  publish_share-Still now r h = record {
    in_shadow = h.in_shadow;
    at_half = h.at_half;
    reads_half = ap (λ p. D.clamp p (D.literal 0 0) (D.literal 1 0)) h.at_half;
  }

  check_link-Still :
      (alive : Bool) (r : Router D) → Still r → Still (check_kernel_admit_link D alive r)
  unfolding check_kernel_admit_link
  check_link-Still alive r h = h

  tick_heartbeat-Still : (t : Readings) (r : Router D) → Still r → Still (tick_heartbeat D t r)
  unfolding tick_heartbeat
  tick_heartbeat-Still t r h =
      let pi = r.control.rebalancer.pi in
      let beaten = check_kernel_admit_link D t.link_alive (publish_share D t.beat_ms pi r) in
      let h' =
        check_link-Still t.link_alive (publish_share D t.beat_ms pi r)
          (publish_share-Still t.beat_ms r h) in
      let synced = maybe_sync_admit_for_pi D pi beaten in
      let wanted = beaten.rebalancer_actuation || beaten.kernel_attached in
      either-Still (leb heartbeat_ms (age_ms D t.check_ms r.dataplane))
        (if wanted then synced else beaten) r
        (either-Still wanted synced beaten (maybe_sync-Still pi beaten h') h') h

  tick_rebalance-Still : (t : Readings) (r : Router D) → Still r → Still (tick_rebalance D t r)
  unfolding tick_rebalance
  tick_rebalance-Still t r h =
      let signals = pool_pressure D r (fast_path_share D r half) in
      let r' = record r {
        control = record r.control { last_pi_star = shadow_pi_star D signals r.control.rebalancer };
      } in
      rw (maybe_update_shadow t.now signals r.control.rebalancer h.in_shadow) (
        either-Still r.rebalancer_actuation (maybe_sync_admit_for_pi D r.control.rebalancer.pi r')
          r' (maybe_sync-Still r.control.rebalancer.pi r' h) h)

  tick_predictor-Still :
      (prompt_tokens : Option ℕ) (r : Router D) → Still r → Still (tick_predictor D prompt_tokens r)
  unfolding tick_predictor
  tick_predictor-Still none r h = h
  tick_predictor-Still (some tokens) r h = h

  module _ (mac : Bytes → Bytes) (salt_block : ℕ → ℕ → ℕ) where
    tick_regret-Still :
        (prompt_tokens : Option ℕ) (r : Router D)
        → Still r
        → Still (tick_regret D mac salt_block prompt_tokens r)
    unfolding tick_regret
    tick_regret-Still none r h = h
    tick_regret-Still (some tokens) r h = either-Still (both_pools D r) _ r h h

    tick_due-Still :
        (t : Readings) (prompt_tokens : Option ℕ) (sample_regret : Bool) (r : Router D)
        → Still r
        → Still (tick_due D mac salt_block t prompt_tokens sample_regret r)
    unfolding tick_due
    tick_due-Still t prompt_tokens sample_regret r h =
        let h' = tick_heartbeat-Still t (tick_rebalance D t r) (tick_rebalance-Still t r h) in
        let beaten = tick_heartbeat D t (tick_rebalance D t r) in
        either-Still sample_regret (tick_regret D mac salt_block prompt_tokens beaten) beaten
          (tick_regret-Still prompt_tokens beaten h') h'

    deferred_control_tick-Still :
        (t : Readings) (prompt_tokens : Option ℕ) (sample_regret : Bool) (r : Router D)
        → Still r
        → Still (deferred_control_tick D mac salt_block t prompt_tokens sample_regret r)
    unfolding deferred_control_tick
    deferred_control_tick-Still t prompt_tokens sample_regret r h =
        let h' = tick_predictor-Still prompt_tokens r h in
        let predicted = tick_predictor D prompt_tokens r in
        let ticked = tick_due D mac salt_block t prompt_tokens sample_regret predicted in
        let due = is_rebalance_due D t.start_ms sample_regret r in
        let last = if due then ticked else predicted in
        either-Still (not (has_tokens prompt_tokens) && not due) r
          (if not t.lock_free then r else last) h
          (either-Still (not t.lock_free) r last h (
            either-Still due ticked predicted
              (tick_due-Still t prompt_tokens sample_regret predicted h') h'))

    -- Any ticks, in turn.
    pub run_ticks : List (Readings × Option ℕ × Bool) → Router D → Router D
    unfolding deferred_control_tick
    run_ticks [] r = r
    run_ticks ((t, prompt_tokens, sample_regret) ∷ ticks) r =
        run_ticks ticks (deferred_control_tick D mac salt_block t prompt_tokens sample_regret r)

    run_ticks-Still :
        (ticks : List (Readings × Option ℕ × Bool)) (r : Router D)
        → Still r
        → Still (run_ticks ticks r)
    unfolding run_ticks
    run_ticks-Still [] r h = h
    run_ticks-Still ((t, prompt_tokens, sample_regret) ∷ ticks) r h =
        run_ticks-Still ticks
          (deferred_control_tick D mac salt_block t prompt_tokens sample_regret r)
          (deferred_control_tick-Still t prompt_tokens sample_regret r h)

    -- A router with a KV pool whose settings, read of the environment, enable the actuation of the
    -- share never moves it: after any ticks its rebalancer is where it began, at one half, and the data
    -- plane reads one half, clamped to between 0 and 1.
    pub run_ticks-with_kv_pool :
        (ticks : List (Readings × Option ℕ × Bool)) (s : Settings)
        (prefill decode : List (Backend D)) (capacity bytes_per_token : ℕ)
        → s.rebalancer_actuation ≡ true
        → let r = run_ticks ticks (with_kv_pool D s prefill decode capacity bytes_per_token) in
          (r.control.rebalancer.pi ≡ half)
          × (read_pi D r.dataplane ≡ D.clamp half (D.literal 0 0) (D.literal 1 0))
    unfolding with_kv_pool default_control new Rebalancer.new Rcu.new new_snapshot read_pi
    run_ticks-with_kv_pool ticks s prefill decode capacity bytes_per_token enabled =
        let h =
          run_ticks-Still ticks (with_kv_pool D s prefill decode capacity bytes_per_token)
            (record { in_shadow = refl; at_half = refl; reads_half = refl }) in
        (h.at_half, h.reads_half)
