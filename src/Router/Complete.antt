-- ===== src/Router/Complete.antt =====
-- crates/demiurge-router/src/routing.rs: the placement of a decode once its prefill has answered. The
-- reservation's guard is dropped, and so released, on a return with an error. The transports are those
-- that need no floating point; the wall time is a number of nanoseconds.
pub mod Refund
use demiurge.Base.{
  ℕ, ◌+◌, ◌-◌, ◌*◌, ◌/◌, ◌%◌, ◌^◌, min, Bool, true, false, Option, none, some, List, [], ◌∷◌,
  String, if◌then◌else◌, same, Bytes, u64_max,
}
use demiurge.Base.F64.{F64}
use demiurge.Control.Graduation.{CorrectorShadowSample}
use demiurge.Control.Shadow.{RdmaCostShadowSample}
use demiurge.Cost.Factors.{one_f}
use demiurge.Cost.Compose.{append_barriers, in_use, no_barriers}
use demiurge.Cost.Kv.{kv_breakdown}
use demiurge.Cost.Rdma.{rdma_distance, transfer_ln}
use demiurge.Dataplane.Rcu.{read_pi}
use demiurge.Handoff.{
  HandoffDescriptor, HandoffRegistry, HandoffTransport, header_passthrough, publish, transfer,
  record_transfer,
}
use demiurge.Ledger.{ReservationLedger, ReservationGuard, guard_drop}
use demiurge.State.Snapshot.{StateSnapshot}
use demiurge.State.Warmth.{default_routing_blocks}
use demiurge.State.Pool.{doubles}
use demiurge.Router.{
  RouteError, no_backend, handoff_missing, Claimed, refused, admitted, claim_handoff,
}
use demiurge.Router.Backend.{Backend, note_observed_seconds, cost_with_isolation}
use demiurge.Router.Backend.Select.{
  DecodePlacementCtx, select_decode_with_pi, routing_transfer_penalty,
}
use demiurge.Router.Plane.{Router, decode_phase, routing_snapshot}
use demiurge.Router.Plane.Counters.{
  topology_for_label, record_rdma_cost_shadow, record_corrector_shadow,
}
use demiurge.Router.Plane.Pick.{pick_with_phi, pick_colocated, ledger_phi}
use demiurge.Router.Plane.Tick.{Readings, deferred_control_tick}

pub record PrefillSignals : Type 0 where
  pub request_id : ℕ
  pub prompt_tokens : ℕ
  pub prefill_wall : ℕ

-- A hand-off with the guard of its reservation.
abbrev pub Held : Type 0
Held = Option (HandoffDescriptor × ReservationGuard)

pub data ClaimStage : Type 0 where
  stop : RouteError → ClaimStage
  go_on : Held → ClaimStage

pub stage_of_claim : Claimed → ClaimStage
stage_of_claim (refused e) = stop e
stage_of_claim (admitted h guard) = go_on (some (h, guard))

-- The bytes that the decode will read, as far as they are known.
pub bytes_to_move : ℕ → Held → ℕ
bytes_to_move expected none = expected
bytes_to_move expected (some (h, guard)) = h.byte_len

abbrev pub guard_of : Held → Option ReservationGuard
guard_of none = none
guard_of (some (h, guard)) = some guard

-- The drop of the guard, if there is one, into the ledger, if there is one.
unfoldable pub drop_held : Held → Option ReservationLedger → Option ReservationLedger
unfolding guard_drop
drop_held none ledger = ledger
drop_held (some (h, guard)) none = none
drop_held (some (h, guard)) (some l) = some (guard_drop guard l)

pub or_else {ℓ} : {A : Type ℓ} → Option A → Option A → Option A
or_else none o = o
or_else (some a) o = some a

-- `handoff_transport_or_default`
abbrev pub transport_or_default : Option HandoffTransport → HandoffTransport
transport_or_default none = header_passthrough
transport_or_default (some t) = t

module _ (D : F64) where
  -- `Duration::as_secs_f64`
  pub as_secs : ℕ → D.F
  as_secs nanos =
      D.add (D.of_u64 (nanos / 10 ^ 9)) (D.div (D.of_u64 (nanos % 10 ^ 9)) (D.of_u64 (10 ^ 9)))

  -- The first match, with a ledger and a registry or without.
  pub claim_with :
      PrefillSignals
      → ℕ
      → Bytes
      → String
      → Router D
      → Option ReservationLedger
      → Option HandoffRegistry
      → ClaimStage × Router D
  unfolding claim_handoff stage_of_claim
  claim_with sig now response label r none reg = (go_on none, r)
  claim_with sig now response label r (some l) none = (go_on none, r)
  claim_with sig now response label r (some l) (some reg) =
      let (claimed, l') =
        claim_handoff sig.request_id sig.prompt_tokens r.bytes_per_token response label now l in
      (stage_of_claim claimed, record r { ledger = some l' })

  unfoldable pub claim_stage :
      PrefillSignals → ℕ → Bytes → String → Router D → ClaimStage × Router D
  unfolding claim_with
  claim_stage sig now response label r = claim_with sig now response label r r.ledger r.handoffs

  -- The observed wall goes to the first prefill backend with the label.
  pub note_in : String → D.F → List (Backend D) → List (Backend D)
  unfolding note_observed_seconds
  note_in label secs [] = []
  note_in label secs (b ∷ bs) =
      let rest = note_in label secs bs in
      if same b.label label then note_observed_seconds D secs b ∷ bs else b ∷ rest

  unfoldable pub note_wall : String → ℕ → Router D → Router D
  unfolding note_in as_secs
  note_wall label wall r = record r { prefill = note_in label (as_secs wall) r.prefill }

  -- The memory barrier of the ledger, where it is above 1.
  pub phi_of : Option ReservationLedger → Option D.F
  unfolding ledger_phi
  phi_of none = none
  phi_of (some l) = if D.lt (one_f D) (ledger_phi D l) then some (ledger_phi D l) else none

  pub extra_of : Option D.F → List D.F
  unfolding append_barriers in_use no_barriers
  extra_of none = in_use D (no_barriers D, 0)
  extra_of (some phi) = in_use D (append_barriers D (no_barriers D) 0 (phi ∷ []))

  pub record Placement : Type 0 where
    pub backend : Backend D
    pub reservation : Option ReservationGuard

  pub data Completed : Type 0 where
    ok : Placement → Completed
    err : RouteError → Completed

  -- The registry's entry and its samples, and the shadow of the transfer's cost between two backends.
  unfoldable pub hand_over : PrefillSignals → String → Backend D → Held → Router D → Router D
  unfolding publish transfer record_transfer topology_for_label record_rdma_cost_shadow
      rdma_distance transfer_ln as_secs
  hand_over sig label b none r = r
  hand_over sig label b (some (h, guard)) r = elim r.handoffs [
    | none ↦ r
    | some reg ↦
        let h' = record h { decode_label = some b.label } in
        let transport = transport_or_default r.handoff_transport in
        let outcome = transfer transport h' sig.prefill_wall in
        let reg' = record_transfer outcome.transferred outcome.wall (publish h' reg) in
        let r' = record r { handoffs = some reg' } in
        let pf_topo = topology_for_label D label r in
        if same label b.label
        then r'
        else record_rdma_cost_shadow D
            (record {
              pf_label = label;
              dc_label = b.label;
              distance = rdma_distance pf_topo b.topology;
              kv_bytes = h.byte_len;
              analytic_transfer_ln = transfer_ln D h.byte_len pf_topo b.topology;
              flat_penalty_ln = D.ln (routing_transfer_penalty D);
              observed_transfer_secs = as_secs outcome.wall;
            })
            r'
  ]

  module _ (mac : Bytes → Bytes) (salt_block : ℕ → ℕ → ℕ) where
    -- The backend for the decode: by its whole cost, by load alone, or a single hop.
    unfoldable pub place_decode :
        Option Bytes → PrefillSignals → String → Held → Router D → Option (Backend D)
    unfolding kv_breakdown phi_of extra_of select_decode_with_pi routing_snapshot topology_for_label
        read_pi bytes_to_move pick_with_phi pick_colocated or_else
    place_decode colocated_value sig label held r =
        let expected = (kv_breakdown sig.prompt_tokens r.bytes_per_token).kv_reserved in
        let ctx : DecodePlacementCtx = record {
          prefill_label = label;
          pf_topo = topology_for_label D label r;
          kv_bytes = bytes_to_move expected held;
          use_rdma_routing = r.rdma_routing;
        } in
        or_else
          (select_decode_with_pi D mac salt_block ctx r.decode (routing_snapshot D r)
            sig.prompt_tokens (extra_of (phi_of r.ledger)) (read_pi D r.dataplane))
          (or_else (pick_with_phi D decode_phase (phi_of r.ledger) r)
            (pick_colocated D colocated_value r))

    unfoldable pub note_shadow : PrefillSignals → Backend D → Router D → Router D
    unfolding cost_with_isolation record_corrector_shadow phi_of extra_of routing_snapshot read_pi
        default_routing_blocks
    note_shadow sig b r =
        record_corrector_shadow D
          (record {
            prompt_tokens = sig.prompt_tokens;
            analytic_ln =
                cost_with_isolation D mac salt_block (extra_of (phi_of r.ledger))
                  (routing_snapshot D r) (default_routing_blocks sig.prompt_tokens) true
                  (read_pi D r.dataplane) none b;
            observed_us = min (sig.prefill_wall / 1000) u64_max;
            pool_pi = read_pi D r.dataplane;
            backend_label = b.label;
          })
          r

    -- What follows the choice of a backend, or that there is none.
    unfoldable pub finish :
        Readings
        → PrefillSignals
        → String
        → Held
        → Option (Backend D)
        → Router D
        → Completed × Router D
    unfolding drop_held hand_over note_shadow deferred_control_tick
    finish t sig label held none r = (err no_backend, record r { ledger = drop_held held r.ledger })
    finish t sig label held (some b) r = (
      ok (record { backend = b; reservation = guard_of held }),
      deferred_control_tick D mac salt_block t (some sig.prompt_tokens) true
          (note_shadow sig b (hand_over sig label b held r)),
    )

    -- What follows the claim.
    unfoldable pub after_claim :
        Readings
        → Option Bytes
        → PrefillSignals
        → String
        → ClaimStage × Router D
        → Completed × Router D
    unfolding note_wall place_decode finish
    after_claim t colocated_value sig label (stop e, r) = (err e, r)
    after_claim t colocated_value sig label (go_on held, r) =
        let noted = note_wall label sig.prefill_wall r in
        finish t sig label held (place_decode colocated_value sig label held noted) noted

    unfoldable pub on_prefill_complete :
        Readings
        → Option Bytes
        → ℕ
        → PrefillSignals
        → Bytes
        → String
        → Router D
        → Completed × Router D
    unfolding claim_stage after_claim
    on_prefill_complete t colocated_value now sig response label r =
        after_claim t colocated_value sig label (claim_stage sig now response label r)
