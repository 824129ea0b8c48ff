-- ===== src/Router/Plane/Pick.antt =====
-- crates/demiurge-router/src/lib.rs: the choice of a backend by the pools' share, and the pressures that
-- the share is computed from. The environment's value is an argument.
use demiurge.Base.{
  ℕ, max, Bool, true, false, Option, none, some, List, [], ◌∷◌, map, String, Map, if◌then◌else◌,
  Bytes, bytes, bytes_eq,
}
use demiurge.Base.F64.{F64}
use demiurge.Control.Rebalancer.{PoolPressure, export_pool_pressure}
use demiurge.Cost.Factors.{zero_f, one_f}
use demiurge.Cost.Rdma.{phi_barrier}
use demiurge.Dataplane.Rcu.{read_pi}
use demiurge.Ledger.{ReservationLedger, phi_marginal_bytes}
use demiurge.State.Snapshot.{BackendSnapshot, StateSnapshot}
use demiurge.State.Pool.{doubles, kv_pressure}
use demiurge.Router.Backend.{Backend}
use demiurge.Router.Backend.Select.{select_with_barriers_pi}
use demiurge.Router.Plane.{Router, Phase, prefill_phase, decode_phase, routing_snapshot}
use demiurge.Router.Plane.Counters.{pool}

module _ (D : F64) where
  abbrev is_prefill : Phase → Bool
  is_prefill prefill_phase = true
  is_prefill decode_phase = false

  abbrev listed : Option D.F → List D.F
  listed none = []
  listed (some phi) = phi ∷ []

  unfoldable pub pick_with_phi : Phase → Option D.F → Router D → Option (Backend D)
  unfolding pool read_pi select_with_barriers_pi
  pick_with_phi phase phi r =
      select_with_barriers_pi D (pool D phase r) (listed phi) (read_pi D r.dataplane)
        (is_prefill phase)

  unfoldable pub pick : Phase → Router D → Option (Backend D)
  unfolding pick_with_phi
  pick phase r = pick_with_phi phase none r

  -- By the value of `DEMIURGE_COLOCATED_PHASE`, if it is set.
  abbrev pub colocated_phase : Option Bytes → Phase
  colocated_phase none = prefill_phase
  colocated_phase (some v) = if bytes_eq v (bytes "decode") then decode_phase else prefill_phase

  unfoldable pub pick_colocated : Option Bytes → Router D → Option (Backend D)
  unfolding pick
  pick_colocated value r = pick (colocated_phase value) r

  -- `ReservationLedger::phi_barrier`
  unfoldable pub ledger_phi : ReservationLedger → D.F
  unfolding phi_barrier phi_marginal_bytes
  ledger_phi l = phi_barrier D (phi_marginal_bytes l) l.capacity_bytes

  pub most_inflight : List (Backend D) → ℕ
  most_inflight [] = 0
  most_inflight (b ∷ bs) = max b.inflight (most_inflight bs)

  pub live_queue_pressure : List (Backend D) → D.F
  unfolding most_inflight
  live_queue_pressure backends =
      let most = D.of_u64 (most_inflight backends) in
      D.clamp (D.div most (D.add most (D.literal 16 0))) (zero_f D) (one_f D)

  abbrev backends_of : Map String (BackendSnapshot (doubles D)) → List (BackendSnapshot (doubles D))
  backends_of = map (λ p. p.1)

  -- `export_pool_pressure` of a snapshot, whose maps are read in some order; no pressure without one.
  pub snapshot_pressure : Option (StateSnapshot (doubles D)) → D.F → PoolPressure D
  unfolding export_pool_pressure kv_pressure
  snapshot_pressure none fp_share = record {
    q_prefill = zero_f D;
    q_decode = zero_f D;
    kv_decode = zero_f D;
    slo_prefill = zero_f D;
    slo_decode = zero_f D;
    fp_share = fp_share;
  }
  snapshot_pressure (some s) fp_share =
      export_pool_pressure D (map (λ b. b.occupancy) (backends_of s.prefill))
        (map (λ b. b.occupancy) (backends_of s.decode))
        (map (λ b. kv_pressure D b) (backends_of s.decode)) fp_share

  -- The ledger's share of its capacity, if there is a ledger.
  pub with_ledger : Option ReservationLedger → D.F → D.F
  with_ledger none kv = kv
  with_ledger (some l) kv = D.max_of kv (
      D.clamp (D.div (D.of_u64 l.reserved_bytes) (D.of_u64 (max l.capacity_bytes 1))) (zero_f D)
        (one_f D))

  unfoldable pub pool_pressure : Router D → D.F → PoolPressure D
  unfolding snapshot_pressure live_queue_pressure with_ledger routing_snapshot
  pool_pressure r fp_share =
      let signals = snapshot_pressure (routing_snapshot D r) fp_share in
      record signals {
        q_prefill = D.max_of signals.q_prefill (live_queue_pressure r.prefill);
        q_decode = D.max_of signals.q_decode (live_queue_pressure r.decode);
        kv_decode = with_ledger r.ledger signals.kv_decode;
        fp_share = D.clamp fp_share (zero_f D) (one_f D);
      }
