-- ===== src/Router/Connection.antt =====
-- crates/demiurge-router/src/serve.rs, and run_prefill_io of routing.rs beside it: one connection, from its
-- admission to the drop of its guards, by std's sockets. What the sockets give is an argument. The copies
-- between the client and a backend are left, and with them the count of a backend's requests, which is
-- raised and lowered around them; so is the next number of a request, which is the whole process's.
pub mod Refund
mod Tests
use demiurge.Base.{
  ℕ, ◌+◌, ◌-◌, ltb, if◌then◌else◌, length, take, Bool, true, false, Option, none, some, List,
  String, Bytes,
}
use demiurge.Base.F64.{F64}
use demiurge.Http.{Read, read_head, parse_request_identity}
use demiurge.Ledger.{ReservationLedger, ReservationGuard, guard_drop}
use demiurge.Router.Backend.{Backend}
use demiurge.Router.Plane.{Router}
use demiurge.Router.Plane.Tick.{Readings}
use demiurge.Router.Routing.{
  Surroundings, RoutePath, colocated, disaggregated, decode_only, Routed, route_with_identity,
}
use demiurge.Router.Routing
use demiurge.Router.Complete.{PrefillSignals, Completed, ok, err, on_prefill_complete}
use demiurge.Router.Serve.{AdmitConn, shed, proceed, admit_conn, drop_admit_guard}

abbrev prefill_response_max_bytes : ℕ
prefill_response_max_bytes = 1048576

-- `run_prefill_io`, by what the prefill backend sends, or that its I/O failed: no more than a bounded part
-- of a response is read, and a response that is longer is an error.
unfoldable pub run_prefill_io : Option Bytes → Option Bytes
run_prefill_io none = none
run_prefill_io (some sent) =
    let resp = take (prefill_response_max_bytes + 1) sent in
    if ltb prefill_response_max_bytes (length resp) then none else some resp

-- What a connection reads of its sockets and of what is around it: the client's bytes, what the prefill
-- backend sends, or that its I/O failed, and the readings of the route and of what follows the prefill.
pub record Inputs : Type 0 where
  pub reads : List Read
  pub around : Surroundings
  pub routed_at : Readings
  pub response : Option Bytes
  pub prefill_wall : ℕ
  pub reserved_at : ℕ
  pub completed_at : Readings
  pub colocated_value : Option Bytes

module _ (D : F64) where
  -- What a client gets: an answer of a backend, a 503, or no more than the end of the connection.
  pub data Reply : Type 0 where
    proxied : Backend D → Reply
    unavailable closed : Reply

  pub drop_reservation :
      Option ReservationGuard → Option ReservationLedger → Option ReservationLedger
  unfolding guard_drop
  drop_reservation none ledger = ledger
  drop_reservation (some guard) none = none
  drop_reservation (some guard) (some l) = some (guard_drop guard l)

  -- What follows the completion: the client is proxied, and then the reservation is dropped.
  unfoldable pub settle_placement : Completed D × Router D → Reply × Router D
  unfolding drop_reservation
  settle_placement (err e, r) = (unavailable, r)
  settle_placement (ok p, r) =
      (proxied p.backend, record r { ledger = drop_reservation p.reservation r.ledger })

  -- `drop(_admit_guard)` at the end of a connection that was admitted.
  unfoldable pub drop_guard : Bool → Reply × Router D → Reply × Router D
  unfolding drop_admit_guard
  drop_guard held (reply, r) = (reply, drop_admit_guard D held r)

  module _ (mac : Bytes → Bytes) (salt_block : ℕ → ℕ → ℕ) (fingerprint : Bytes → ℕ) where
    unfoldable pub handle_disaggregated :
        Inputs → Option Bytes → ℕ → ℕ → String → Router D → Reply × Router D
    unfolding on_prefill_complete settle_placement
    handle_disaggregated i none request_id prompt_tokens label r = (unavailable, r)
    handle_disaggregated i (some response) request_id prompt_tokens label r =
        let sig : PrefillSignals = record {
          request_id = request_id;
          prompt_tokens = prompt_tokens;
          prefill_wall = i.prefill_wall;
        } in
        settle_placement (
          on_prefill_complete D mac salt_block i.completed_at i.colocated_value i.reserved_at sig
            response label r)

    -- By the route.
    unfoldable pub handle_routed : Inputs → Routed D → Router D → Reply × Router D
    unfolding handle_disaggregated run_prefill_io
    handle_routed i (Routing.err e) r = (unavailable, r)
    handle_routed i (Routing.ok (colocated b)) r = (proxied b, r)
    handle_routed i (Routing.ok (decode_only b)) r = (proxied b, r)
    handle_routed i (Routing.ok (disaggregated b request_id prompt_tokens)) r =
        handle_disaggregated i (run_prefill_io i.response) request_id prompt_tokens b.label r

    -- By the head that was read, if one was.
    unfoldable pub handle_head : Inputs → Option Bytes → Router D → Reply × Router D
    unfolding route_with_identity parse_request_identity handle_routed
    handle_head i none r = (closed, r)
    handle_head i (some head) r =
        let step =
          route_with_identity D mac salt_block i.around i.routed_at head
            (parse_request_identity fingerprint head) r in
        handle_routed i step.answer step.router

    -- By the admission.
    unfoldable pub handle_admitted : Inputs → AdmitConn × Router D → Reply × Router D
    unfolding read_head handle_head drop_guard
    handle_admitted i (shed, r) = (unavailable, r)
    handle_admitted i (proceed held, r) = drop_guard held (handle_head i (read_head i.reads) r)

    unfoldable pub handle_conn : Inputs → Router D → Reply × Router D
    unfolding admit_conn handle_admitted
    handle_conn i r = handle_admitted i (admit_conn D r)
