-- ===== src/Router/Connection/Refund.antt =====
-- No reservation outlives its connection.
use demiurge.Base.{
  ℕ, ◌≡◌, refl, sym, ap, ◌∙◌, subst, Bool, true, false, not, Option, none, some, String,
  if◌then◌else◌, Bytes, Option-cases, inl, inr, same,
}
use demiurge.Base.F64.{F64}
use demiurge.Dataplane.AdmitMode.{uses_userspace_admit}
use demiurge.Dataplane.Bucket.{AdmitBucket, Admit, try_admit}
use demiurge.Dataplane.Bucket
use demiurge.Http.{estimate_prompt_tokens, read_head, parse_request_identity}
use demiurge.Ledger.{ReservationLedger}
use demiurge.Ledger.Invariant.{Inv}
use demiurge.Router.Backend.{Backend}
use demiurge.Router.Plane.{Router}
use demiurge.Router.Plane.Counters.{record_rdma_cost_shadow, record_corrector_shadow}
use demiurge.Router.Plane.Tick.{Readings}
use demiurge.Router.Plane.Tick.Apart.{Kept, either-Kept, deferred_control_tick-Kept}
use demiurge.Router.Routing.{
  Surroundings, RoutePath, colocated, disaggregated, decode_only, Routed, RouteStep, after_route,
  isolation_of, route_impl, schedule_control_tick, route_with_identity,
}
use demiurge.Router.Routing
use demiurge.Router.Routing.Outcome.{Counted, route_impl-Sound}
use demiurge.Router.Complete.{
  PrefillSignals, Held, ClaimStage, stop, go_on, guard_of, drop_held, hand_over, note_shadow,
  note_wall, place_decode, finish, after_claim, claim_stage, on_prefill_complete,
}
use demiurge.Router.Complete.Refund.{SameHoldings, Staged, drop_held-Staged, claim_stage-Staged}
use demiurge.Router.Serve.{AdmitConn, shed, proceed, admit_answer, admit_conn, drop_admit_guard}
use demiurge.Router.Connection.{
  run_prefill_io, Inputs, Reply, drop_reservation, settle_placement, drop_guard,
  handle_disaggregated, handle_routed, handle_head, handle_admitted, handle_conn,
}

-- A ledger with the reservations of another, and sound accounts.
abbrev pub Holds : ReservationLedger → Option ReservationLedger → Type 0
Holds l after = (l' : ReservationLedger) × (after ≡ some l') × SameHoldings l' l × Inv l'

module _ (D : F64) where
  -- The guard that a placement keeps is the one that an error would have dropped.
  guard_of_drop :
      (held : Held) (ledger : Option ReservationLedger)
      → drop_reservation D (guard_of held) ledger ≡ drop_held held ledger
  unfolding drop_reservation drop_held
  guard_of_drop none ledger = refl
  guard_of_drop (some (h, g)) none = refl
  guard_of_drop (some (h, g)) (some l) = refl

  hand_over-Kept :
      (sig : PrefillSignals) (label : String) (b : Backend D) (held : Held) (r : Router D)
      → Kept D r.ledger (hand_over D sig label b held r)
  unfolding hand_over record_rdma_cost_shadow
  hand_over-Kept sig label b none r = refl
  hand_over-Kept sig label b (some (h, g)) r = elim (Option-cases r.handoffs) [
    | inl e ↦ rw (e) refl
    | inr (reg, e) ↦ rw (e) (either-Kept D r.ledger (same label b.label) _ _ refl refl)
  ]

  admit_answer-Kept :
      (p : Admit × AdmitBucket) (r : Router D) → Kept D r.ledger (admit_answer D p r).1
  unfolding admit_answer
  admit_answer-Kept (Bucket.ok, bucket) r = refl
  admit_answer-Kept (Bucket.err e, bucket) r = refl

  either_admit-Kept :
      (test : Bool) (ledger : Option ReservationLedger) (x y : AdmitConn × Router D)
      → Kept D ledger x.1
      → Kept D ledger y.1
      → Kept D ledger (if test then x else y).1
  either_admit-Kept true ledger x y h k = h
  either_admit-Kept false ledger x y h k = k

  admit_conn-Kept : (r : Router D) → Kept D r.ledger (admit_conn D r).1
  unfolding admit_conn
  admit_conn-Kept r =
      either_admit-Kept (not (uses_userspace_admit r.kernel_attached r.admit_mode)) r.ledger
        (proceed false, r) (admit_answer D (try_admit r.admit) r) refl
        (admit_answer-Kept (try_admit r.admit) r)

  drop_guard-Holds :
      (l : ReservationLedger) (held : Bool) (p : Reply D × Router D)
      → Holds l p.1.ledger
      → Holds l (drop_guard D held p).1.ledger
  unfolding drop_guard drop_admit_guard
  drop_guard-Holds l true (reply, r) h = h
  drop_guard-Holds l false (reply, r) h = h

  Counted-Kept : (r after : Router D) (a : Routed D) → Counted D r after a → Kept D r.ledger after
  Counted-Kept r after (Routing.err e) h = ap (λ x. x.ledger) h
  Counted-Kept r after (Routing.ok (colocated b)) h = h.2
  Counted-Kept r after (Routing.ok (disaggregated b request_id prompt_tokens)) h = h.2
  Counted-Kept r after (Routing.ok (decode_only b)) h = h.2

  module _ (mac : Bytes → Bytes) (salt_block : ℕ → ℕ → ℕ) where
    schedule-Kept :
        (t : Readings) (path : RoutePath D) (head : Bytes) (r : Router D)
        → Kept D r.ledger (schedule_control_tick D mac salt_block t path head r)
    unfolding schedule_control_tick
    schedule-Kept t (colocated b) head r =
        deferred_control_tick-Kept D mac salt_block t (some (estimate_prompt_tokens head)) false r
    schedule-Kept t (disaggregated b request_id prompt_tokens) head r =
        deferred_control_tick-Kept D mac salt_block t (some prompt_tokens) false r
    schedule-Kept t (decode_only b) head r =
        deferred_control_tick-Kept D mac salt_block t none false r

    after_route-Kept :
        (t : Readings) (head : Bytes) (a : Routed D) (step : RouteStep D)
        → Kept D step.router.ledger (after_route D mac salt_block t head a step).router
    unfolding after_route
    after_route-Kept t head (Routing.ok path) step = schedule-Kept t path head step.router
    after_route-Kept t head (Routing.err e) step = refl

    finish-Holds :
        (t : Readings) (sig : PrefillSignals) (label : String) (held : Held)
        (found : Option (Backend D)) (r : Router D) (l : ReservationLedger)
        → Staged l (go_on held) r.ledger
        → Holds l (settle_placement D (finish D mac salt_block t sig label held found r)).1.ledger
    unfolding finish settle_placement note_shadow record_corrector_shadow
    finish-Holds t sig label held none r l h = drop_held-Staged D l held r.ledger h
    finish-Holds t sig label held (some b) r l h =
        let shown = note_shadow D mac salt_block sig b (hand_over D sig label b held r) in
        let kept =
          deferred_control_tick-Kept D mac salt_block t (some sig.prompt_tokens) true shown
          ∙ hand_over-Kept sig label b held r in
        subst (λ o. Holds l o)
          (sym (ap (drop_reservation D (guard_of held)) kept ∙ guard_of_drop held r.ledger))
          (drop_held-Staged D l held r.ledger h)

    after_claim-Holds :
        (t : Readings) (value : Option Bytes) (sig : PrefillSignals) (label : String)
        (p : ClaimStage × Router D) (l : ReservationLedger)
        → Staged l p.0 p.1.ledger
        → Holds l (settle_placement D (after_claim D mac salt_block t value sig label p)).1.ledger
    unfolding after_claim note_wall settle_placement
    after_claim-Holds t value sig label (stop e, r) l h = h
    after_claim-Holds t value sig label (go_on held, r) l h =
        let noted = note_wall D label sig.prefill_wall r in
        finish-Holds t sig label held (place_decode D mac salt_block value sig label held noted)
          noted l h

    module _ (fingerprint : Bytes → ℕ) (i : Inputs) (l : ReservationLedger) (v : Inv l) where
      unchanged-Holds : (r : Router D) → r.ledger ≡ some l → Holds l r.ledger
      unchanged-Holds r known = (
        l,
        known,
        record { same_total = refl; same_entries = λ j. refl; same_outstanding = λ j. refl },
        v,
      )

      handle_disaggregated-Holds :
          (response : Option Bytes) (request_id prompt_tokens : ℕ) (label : String) (r : Router D)
          → r.ledger ≡ some l
          → Holds l
              (handle_disaggregated D mac salt_block fingerprint i response request_id prompt_tokens
                label r).1.ledger
      unfolding handle_disaggregated on_prefill_complete
      handle_disaggregated-Holds none request_id prompt_tokens label r known =
          unchanged-Holds r known
      handle_disaggregated-Holds (some response) request_id prompt_tokens label r known =
          let sig : PrefillSignals = record {
            request_id = request_id;
            prompt_tokens = prompt_tokens;
            prefill_wall = i.prefill_wall;
          } in
          after_claim-Holds i.completed_at i.colocated_value sig label
            (claim_stage D sig i.reserved_at response label r) l
            (claim_stage-Staged D sig i.reserved_at response label r l known v)

      handle_routed-Holds :
          (a : Routed D) (r : Router D)
          → r.ledger ≡ some l
          → Holds l (handle_routed D mac salt_block fingerprint i a r).1.ledger
      unfolding handle_routed
      handle_routed-Holds (Routing.err e) r known = unchanged-Holds r known
      handle_routed-Holds (Routing.ok (colocated b)) r known = unchanged-Holds r known
      handle_routed-Holds (Routing.ok (decode_only b)) r known = unchanged-Holds r known
      handle_routed-Holds (Routing.ok (disaggregated b request_id prompt_tokens)) r known =
          handle_disaggregated-Holds (run_prefill_io i.response) request_id prompt_tokens b.label r
            known

      handle_head-Holds :
          (head : Option Bytes) (r : Router D)
          → r.ledger ≡ some l
          → Holds l (handle_head D mac salt_block fingerprint i head r).1.ledger
      unfolding handle_head route_with_identity
      handle_head-Holds none r known = unchanged-Holds r known
      handle_head-Holds (some head) r known =
          let identity = parse_request_identity fingerprint head in
          let isolation = isolation_of D mac salt_block r.cache_registry identity in
          let step = route_impl D mac salt_block i.around head isolation r in
          let routed = after_route D mac salt_block i.routed_at head step.answer step in
          let sound = route_impl-Sound D mac salt_block i.around head isolation r in
          handle_routed-Holds routed.answer routed.router (
            after_route-Kept i.routed_at head step.answer step
            ∙ Counted-Kept r step.router step.answer sound.1
            ∙ known)

      handle_admitted-Holds :
          (p : AdmitConn × Router D)
          → p.1.ledger ≡ some l
          → Holds l (handle_admitted D mac salt_block fingerprint i p).1.ledger
      unfolding handle_admitted
      handle_admitted-Holds (shed, r) known = unchanged-Holds r known
      handle_admitted-Holds (proceed held, r) known =
          drop_guard-Holds l held (handle_head D mac salt_block fingerprint i (read_head i.reads) r)
            (handle_head-Holds (read_head i.reads) r known)

      -- No reservation outlives its connection: whatever the client, the prefill backend and the clocks
      -- give, and whether the connection is shed, refused, fails or is proxied, once it is handled the
      -- ledger holds the reservations, the total and each source's outstanding bytes that it held before,
      -- and its accounts are sound. The accounts were sound, and no other connection is handled meanwhile.
      pub handle_conn-Holds :
          (r : Router D)
          → r.ledger ≡ some l
          → Holds l (handle_conn D mac salt_block fingerprint i r).1.ledger
      unfolding handle_conn
      handle_conn-Holds r known = handle_admitted-Holds (admit_conn D r) (admit_conn-Kept r ∙ known)
