-- ===== src/Router/Plane/Counters.antt =====
-- crates/demiurge-router/src/lib.rs: the router's counters, the capacity that it admits by, and the
-- telemetry that it keeps.
use demiurge.Base.{
  ℕ, ◌*◌, ◌/◌, max, Bool, ◌&&◌, Option, none, some, List, [], ◌∷◌, ◌++◌, String, string_key, leb,
  ◌==◌, if◌then◌else◌, same, saturating_add, wrapping_add,
}
use demiurge.Base.F64.{F64}
use demiurge.Control.Graduation.{CorrectorShadowSample}
use demiurge.Control.Shadow.{RdmaCostShadowSample, record_shadow}
use demiurge.Cost.Params.{routing_short_context_tokens}
use demiurge.Cost.Rdma.{TopologyId}
use demiurge.Dataplane.Bucket.{reseed}
use demiurge.Dataplane.Rcu.{admit_capacity_for_pi}
use demiurge.Router.Backend.{Backend}
use demiurge.Router.Plane.{Router, Phase, prefill_phase, decode_phase, dataplane_admit_burst}

module _ (D : F64) where
  -- The bucket's part; the kernel's program is reseeded too, if it is attached.
  unfoldable pub sync_admit_capacity : ℕ → Router D → Router D
  unfolding reseed
  sync_admit_capacity capacity r = record r { admit = reseed (max capacity 1) r.admit }

  unfoldable pub maybe_sync_admit_for_pi : D.F → Router D → Router D
  unfolding sync_admit_capacity admit_capacity_for_pi
  maybe_sync_admit_for_pi pi r =
      let cap = admit_capacity_for_pi D dataplane_admit_burst pi in
      if cap == r.last_admit_capacity
      then r
      else sync_admit_capacity cap (record r { last_admit_capacity = cap })

  -- By whether the link is alive.
  unfoldable pub check_kernel_admit_link : Bool → Router D → Router D
  check_kernel_admit_link link_alive r = record r {
    kernel_attached = r.kernel_attached && link_alive;
  }

  -- By the kernel's count, if it has one.
  unfoldable pub total_admit_shed : ℕ → Router D → ℕ
  total_admit_shed kernel r = saturating_add r.admit.shed_total kernel

  unfoldable pub bump_route_counters : Bool → Router D → Router D
  bump_route_counters colocated r =
      if colocated
      then record r { colocated_routes = wrapping_add r.colocated_routes 1 }
      else record r { disagg_routes = wrapping_add r.disagg_routes 1 }

  -- Of a number that is at most the threshold, a product with 100 does not wrap.
  abbrev pub is_near_threshold : ℕ → Bool
  is_near_threshold prompt_tokens =
      leb prompt_tokens routing_short_context_tokens
      && leb 80 (prompt_tokens * 100 / routing_short_context_tokens)

  -- By whether the lock of the control plane is free.
  unfoldable pub note_fastpath_misroute : Bool → ℕ → Router D → Router D
  note_fastpath_misroute free prompt_tokens r =
      let cp = r.control in
      let frac =
        D.clamp (D.div (D.of_u64 prompt_tokens) (D.of_u64 routing_short_context_tokens))
          (D.literal 0 0) (D.literal 1 0) in
      if is_near_threshold prompt_tokens && free
      then record r {
        control = record cp {
          fastpath_misroute_sum = D.add cp.fastpath_misroute_sum frac;
          fastpath_misroute_samples = wrapping_add cp.fastpath_misroute_samples 1;
        };
      }
      else r

  unfoldable pub record_corrector_shadow : CorrectorShadowSample D → Router D → Router D
  unfolding record_shadow
  record_corrector_shadow sample r = record r {
    control = record r.control {
      corrector_shadow = record_shadow sample r.control.corrector_shadow;
    };
  }

  unfoldable pub record_rdma_cost_shadow : RdmaCostShadowSample D → Router D → Router D
  unfolding record_shadow
  record_rdma_cost_shadow sample r = record r {
    control = record r.control {
      rdma_cost_shadow = record_shadow sample r.control.rdma_cost_shadow;
    };
  }

  -- The first backend with a label.
  unfoldable pub find_label : String → List (Backend D) → Option (Backend D)
  find_label label [] = none
  find_label label (b ∷ bs) =
      let rest = find_label label bs in if same b.label label then some b else rest

  unfoldable pub topology_for_label : String → Router D → TopologyId
  unfolding find_label
  topology_for_label label r = elim (find_label label (r.prefill ++ r.decode)) [
    | none ↦ record { node = ""; rack = ""; cluster = "" }
    | some b ↦ b.topology
  ]

  unfoldable pub pool : Phase → Router D → List (Backend D)
  pool prefill_phase r = r.prefill
  pool decode_phase r = r.decode
