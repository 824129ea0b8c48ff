-- ===== src/Router/Plane.antt =====
-- crates/demiurge-router/src/lib.rs: the router's state, how it is built, and the warmth that it records.
-- A pool's backends are a list of their states. Of the kernel's program, which Dataplane.Xdp models, it is
-- kept whether it is attached. The sessions of the proxy are left.
pub mod Pick
pub mod Tick
pub mod Counters
pub mod Kernel
mod Tests
use demiurge.Base.{
  ℕ, zero, suc, ◌+◌, ◌-◌, ◌*◌, ◌/◌, max, Bool, true, false, ◌&&◌, Option, none, some, List, [], ◌∷◌,
  ◌++◌, String, Map, string_key, map, ltb, leb, ◌==◌, if◌then◌else◌, same, Bytes, saturating_add,
  wrapping_add,
}
use demiurge.Base.F64.{F64}
use demiurge.Base.Maps.{lookup, insert}
use demiurge.Auth.{SharedPrefixGroupRegistry}
use demiurge.Control.Predictor.{LengthPredictor}
use demiurge.Control.Rebalancer.{PoolRebalancer, shadow, can_actuate}
use demiurge.Control.Rebalancer
use demiurge.Control.Graduation.{CorrectorShadowSample}
use demiurge.Control.Shadow.{
  CorrectorShadowLog, RdmaCostShadowLog, RdmaCostShadowSample, new_log, record_shadow,
}
use demiurge.Cost.Params.{routing_short_context_tokens}
use demiurge.Cost.Rdma.{TopologyId}
use demiurge.Dataplane.AdmitMode.{AdmitMode, userspace}
use demiurge.Dataplane.Bucket.{AdmitBucket, reseed}
use demiurge.Dataplane.Bucket
use demiurge.Dataplane.Rcu.{RcuRoutingTable, admit_capacity_for_pi}
use demiurge.Dataplane.Rcu
use demiurge.Handoff.{HandoffRegistry, HandoffTransport, header_passthrough}
use demiurge.Handoff
use demiurge.Ledger.{ReservationLedger}
use demiurge.Ledger
use demiurge.State.Warmth.{insert_all, default_routing_blocks}
use demiurge.State.Snapshot.{StateSnapshot, BackendSnapshot}
use demiurge.State.Pool.{doubles}
use demiurge.Router.Backend.{Backend}

abbrev pub dataplane_admit_burst : ℕ
dataplane_admit_burst = 4096

pub data Phase : Type 0 where
  prefill_phase decode_phase : Phase

-- What `new` reads of the environment and of the clocks.
pub record Settings : Type 0 where
  pub now : ℕ
  pub now_ms : ℕ
  pub admit_mode : AdmitMode
  pub rebalancer_actuation : Bool
  pub rdma_routing : Bool

module _ (D : F64) where
  pub record ControlPlane : Type 0 where
    pub rebalancer : PoolRebalancer D
    pub predictor : LengthPredictor
    pub regret_sum : D.F
    pub regret_samples : ℕ
    pub last_pi_star : D.F
    pub corrector_shadow : CorrectorShadowLog D
    pub rdma_cost_shadow : RdmaCostShadowLog D
    pub fastpath_misroute_sum : D.F
    pub fastpath_misroute_samples : ℕ

  unfoldable pub default_control : ℕ → ControlPlane
  unfolding Rebalancer.new new_log
  default_control now = record {
    rebalancer = Rebalancer.new D shadow now;
    predictor = record { samples = [] };
    regret_sum = D.literal 0 0;
    regret_samples = 0;
    last_pi_star = D.literal 1 1;
    corrector_shadow = new_log 4096;
    rdma_cost_shadow = new_log 4096;
    fastpath_misroute_sum = D.literal 0 0;
    fastpath_misroute_samples = 0;
  }

  pub record Router : Type 0 where
    pub prefill : List (Backend D)
    pub decode : List (Backend D)
    pub ledger : Option ReservationLedger
    pub handoffs : Option HandoffRegistry
    pub bytes_per_token : ℕ
    pub state : Option (StateSnapshot (doubles D))
    pub control : ControlPlane
    pub dataplane : RcuRoutingTable D
    pub admit : AdmitBucket
    pub admit_mode : AdmitMode
    pub kernel_attached : Bool
    pub last_admit_capacity : ℕ
    pub rebalancer_actuation : Bool
    pub colocated_routes : ℕ
    pub disagg_routes : ℕ
    pub handoff_transport : Option HandoffTransport
    pub rdma_routing : Bool
    pub cache_registry : Option SharedPrefixGroupRegistry
    pub state_plane : Option (StateSnapshot (doubles D))

  unfoldable pub new : Settings → List (Backend D) → List (Backend D) → Router
  unfolding default_control Bucket.new Rcu.new
  new s prefill decode = record {
    prefill = prefill;
    decode = decode;
    ledger = none;
    handoffs = none;
    bytes_per_token = 128;
    state = none;
    control = default_control s.now;
    dataplane = Rcu.new D s.now_ms (D.literal 1 1);
    admit = Bucket.new dataplane_admit_burst;
    admit_mode = s.admit_mode;
    kernel_attached = false;
    last_admit_capacity = dataplane_admit_burst;
    rebalancer_actuation = s.rebalancer_actuation;
    colocated_routes = 0;
    disagg_routes = 0;
    handoff_transport = none;
    rdma_routing = s.rdma_routing;
    cache_registry = none;
    state_plane = none;
  }

  unfoldable pub with_kv_pool : Settings → List (Backend D) → List (Backend D) → ℕ → ℕ → Router
  unfolding new Ledger.new Handoff.new
  with_kv_pool s prefill decode decode_capacity_bytes bytes_per_token =
      record (new s prefill decode) {
        ledger = some (Ledger.new decode_capacity_bytes);
        handoffs = some Handoff.new;
        bytes_per_token = bytes_per_token;
        handoff_transport = some header_passthrough;
      }

  pub with_rebalancer_actuation : ℕ → Bool → Router → Router
  unfolding Rebalancer.new
  with_rebalancer_actuation now enabled r =
      let cp = record r.control { rebalancer = Rebalancer.new D can_actuate now } in
      record r { rebalancer_actuation = enabled; control = if enabled then cp else r.control }

  -- The live plane if there is one, else the snapshot that was given.
  unfoldable pub routing_snapshot : Router → Option (StateSnapshot (doubles D))
  routing_snapshot r = elim r.state_plane [ none ↦ r.state | some plane ↦ some plane ]

  -- `if let Some(backend) = pool.get_mut(label)`, by what is found under the label.
  unfoldable pub warm_found :
      String
      → List ℕ
      → Map String (BackendSnapshot (doubles D))
      → Option (BackendSnapshot (doubles D))
      → Map String (BackendSnapshot (doubles D))
  unfolding insert insert_all
  warm_found label blocks pool none = pool
  warm_found label blocks pool (some b) =
      insert label (record b { warmth = insert_all blocks b.warmth }) pool

  unfoldable pub record_warmth_in :
      String
      → List ℕ
      → Map String (BackendSnapshot (doubles D))
      → Map String (BackendSnapshot (doubles D))
  unfolding lookup warm_found
  record_warmth_in label blocks pool = warm_found label blocks pool (lookup label pool)

  abbrev pub is_known : String → Map String (BackendSnapshot (doubles D)) → Bool
  is_known label pool = elim (lookup label pool) [ none ↦ false | some b ↦ true ]

  -- The update that `record_request_warmth` makes of the live plane's snapshot.
  unfoldable pub record_warmth :
      String → Phase → ℕ → StateSnapshot (doubles D) → StateSnapshot (doubles D)
  unfolding record_warmth_in default_routing_blocks
  record_warmth label prefill_phase prompt_tokens snap = record snap {
    prefill = record_warmth_in label (default_routing_blocks prompt_tokens) snap.prefill;
    generation =
        if is_known label snap.prefill then saturating_add snap.generation 1 else snap.generation;
  }
  record_warmth label decode_phase prompt_tokens snap = record snap {
    decode = record_warmth_in label (default_routing_blocks prompt_tokens) snap.decode;
    generation =
        if is_known label snap.decode then saturating_add snap.generation 1 else snap.generation;
  }

  unfoldable pub record_request_warmth : String → Phase → ℕ → Router → Router
  unfolding record_warmth
  record_request_warmth label phase prompt_tokens r = elim r.state_plane [
    | none ↦ r
    | some snap ↦ record r { state_plane = some (record_warmth label phase prompt_tokens snap) }
  ]
