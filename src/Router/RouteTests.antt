-- ===== src/Router/RouteTests.antt =====
-- Two backends for prefill and two for decode over a stand-in for the doubles, and each theorem of the
-- router's routes at a concrete input.
use demiurge.Base.{
  ℕ, ◌+◌, ◌*◌, ◌^◌, ◌≡◌, ◌≢◌, refl, Bool, true, false, Option, none, some, List, [], ◌∷◌, All, drop,
  strip_prefix, trim, String_discrete, String, string_key, Bytes, bytes, ◌++◌, arith,
}
use demiurge.Base.Choose.{IsSelection}
use demiurge.Base.F64.{thousandths, thousandths-IsFiniteOrder}
use demiurge.Base.Maps.{lookup, contains_key}
use demiurge.Base.Float.{mul_ceil}
use demiurge.Base.Utf8.{from_utf8_lossy}
use demiurge.Auth.{CacheDomainKey, private_domain_key, salt, resolve_domain_key}
use demiurge.Auth
use demiurge.Cost.Rdma.{TopologyId}
use demiurge.Dataplane.AdmitMode.{userspace}
use demiurge.Dataplane.Rcu.{read_pi}
use demiurge.Http.{estimate_prompt_tokens}
use demiurge.Ledger.{ReservationLedger, try_reserve_from}
use demiurge.Cost.Kv.{kv_breakdown}
use demiurge.Handoff.{parse_prefill_handoff, is_valid}
use demiurge.Ledger
use demiurge.Ledger.Invariant.{Inv, new-Inv}
use demiurge.State.Warmth.{default_map, default_routing_blocks, insert_salted}
use demiurge.State.Snapshot.{StateSnapshot, BackendSnapshot}
use demiurge.State.Pool.{IsolationCtx, doubles}
use demiurge.Router.{no_backend}
use demiurge.Router.Backend.{Backend}
use demiurge.Router.Backend.Select.{DecodePlacementCtx, decode_key, select_decode_with_pi}
use demiurge.Router.Backend.Minimum.{not_above, select_decode_with_pi-IsSelection}
use demiurge.Router.Plane.{Router, Settings, with_kv_pool, prefill_phase, record_request_warmth}
use demiurge.Router.Plane.Tick.{Readings}
use demiurge.Router.Plane.Tick.Shadowed.{run_ticks, run_ticks-with_kv_pool}
use demiurge.Router.Routing.{Surroundings, route_impl}
use demiurge.Router.Routing.Alike.{with_plane}
use demiurge.Router.Routing.Domains.{
  with_warmth, route_impl-insert_salted, route_impl-record_warmth,
}
use demiurge.Router.Complete.{PrefillSignals, err, on_prefill_complete}
use demiurge.Router.Complete.Refund.{SameHoldings, on_prefill_complete-refunds}

-- A stand-in for the MAC that passes over the name of the domain, and one for the hash of a block.
abbrev pub echo : Bytes → Bytes
echo message = drop 18 message

abbrev pub mix : ℕ → ℕ → ℕ
mix block salt = block * 2 ^ 64 + salt

abbrev place : String → TopologyId
place node = record { node = node; rack = "r0"; cluster = "c0" }

abbrev backend : String → ℕ → Backend thousandths
backend label seconds = record {
  label = label;
  topology = place label;
  base_service_seconds = seconds;
  ln_base = seconds;
  observed_ewma = 0;
  inflight = 1;
}

abbrev prefills : List (Backend thousandths)
prefills = backend "pf0" 2000 ∷ backend "pf1" 1000 ∷ []

abbrev decodes : List (Backend thousandths)
decodes = backend "dc0" 2000 ∷ backend "dc1" 1000 ∷ []

abbrev settings : Settings
settings = record {
  now = 0;
  now_ms = 0;
  admit_mode = userspace;
  rebalancer_actuation = true;
  rdma_routing = true;
}

abbrev pub router : Router thousandths
router = with_kv_pool thousandths settings prefills decodes 1000000 10

abbrev cold : BackendSnapshot (doubles thousandths)
cold = record {
  label = "pf";
  warmth = default_map;
  occupancy = 0;
  kv_bytes_live = 0;
  kv_capacity_bytes = 0;
}

abbrev snapshot : StateSnapshot (doubles thousandths)
snapshot = record { generation = 0; prefill = ("pf0", cold) ∷ ("pf1", cold) ∷ []; decode = [] }

abbrev identity_ctx : IsolationCtx
identity_ctx = record { registry = Auth.new; tenant = 1; group = 7; content_fp = 5 }

abbrev pub around : Surroundings
around = record { colocated_value = none; lock_free = true; next_id = 1 }

abbrev head : Bytes
head = bytes "POST /long/700 HTTP/1.1"

known_pf1 : lookup "pf1" snapshot.prefill ≡ some cold
unfolding lookup String_discrete
known_pf1 = refl

salt_1 : salt echo (resolve_domain_key 1 7 5 Auth.new) ≡ 1
unfolding salt resolve_domain_key Auth.new lookup
salt_1 = refl

salt_2 : salt echo (private_domain_key 2 0) ≡ 2
unfolding salt private_domain_key
salt_2 = refl

-- Blocks under two salts never collide.
apart :
    (blocks : List ℕ)
    → All
        (λ j.
          mix j (salt echo (resolve_domain_key 1 7 5 Auth.new))
          ≢ mix 256 (salt echo (private_domain_key 2 0)))
        blocks
apart [] = tt
apart (j ∷ js) = ((λ e. omega (arith, salt_1, salt_2)), apart js)

route_impl-insert_salted_example :
    (route_impl thousandths echo mix around head (some identity_ctx) (
      with_plane thousandths
        (with_warmth thousandths snapshot.generation "pf1" cold
          (insert_salted echo mix 256 (private_domain_key 2 0) default_map).1
          snapshot)
        router)).answer
    ≡ (route_impl thousandths echo mix around head
        (some identity_ctx)
        (with_plane thousandths snapshot router)).answer
route_impl-insert_salted_example =
    route_impl-insert_salted thousandths echo mix around head identity_ctx router snapshot "pf1"
      cold 256 (private_domain_key 2 0) known_pf1
      (apart (default_routing_blocks (estimate_prompt_tokens head)))

-- No block that is salted with 1 is a multiple of 256.
unsalted :
    (k : ℕ) (blocks : List ℕ)
    → All (λ j. mix j (salt echo (resolve_domain_key 1 7 5 Auth.new)) ≢ k * 256) blocks
unsalted k [] = tt
unsalted k (j ∷ js) = ((λ e. omega (arith, salt_1)), unsalted k js)

recorded_apart :
    All
      (λ k.
        All
          (λ j. mix j (salt echo (resolve_domain_key 1 7 5 Auth.new)) ≢ k)
          (default_routing_blocks (estimate_prompt_tokens head)))
      (default_routing_blocks 300)
unfolding default_routing_blocks
recorded_apart = (unsalted 0 _, (unsalted 1 _, tt))

route_impl-record_warmth_example :
    (route_impl thousandths echo mix around head (some identity_ctx) (
      record_request_warmth thousandths "pf1" prefill_phase 300
        (with_plane thousandths snapshot router))).answer
    ≡ (route_impl thousandths echo mix around head
        (some identity_ctx)
        (with_plane thousandths snapshot router)).answer
route_impl-record_warmth_example =
    route_impl-record_warmth thousandths echo mix around head identity_ctx router snapshot "pf1"
      cold 300 known_pf1 recorded_apart

abbrev ctx : DecodePlacementCtx
ctx = record {
  prefill_label = "pf0";
  pf_topo = place "pf0";
  kv_bytes = 4096;
  use_rdma_routing = true;
}

select_decode_with_pi-IsSelection_example :
    IsSelection
      (not_above thousandths (decode_key thousandths echo mix ctx (some snapshot) 700 [] 500))
      decodes
      (select_decode_with_pi thousandths echo mix ctx decodes (some snapshot) 700 [] 500)
select_decode_with_pi-IsSelection_example =
    select_decode_with_pi-IsSelection thousandths echo mix thousandths-IsFiniteOrder ctx decodes
      (some snapshot) 700 [] 500

abbrev pub readings : Readings
readings = record {
  start_ms = 1000;
  lock_free = true;
  now = 400_000_000_000;
  publish_ms = 1000;
  check_ms = 1000;
  beat_ms = 1001;
  link_alive = true;
}

abbrev ticks : List (Readings × Option ℕ × Bool)
ticks = (readings, some 700, true) ∷ (readings, none, false) ∷ []

run_ticks-with_kv_pool_example :
    let r = run_ticks thousandths echo mix ticks router in
    (r.control.rebalancer.pi ≡ 500) × (read_pi thousandths r.dataplane ≡ 500)
run_ticks-with_kv_pool_example =
    run_ticks-with_kv_pool thousandths echo mix ticks settings prefills decodes 1000000 10 refl

-- A valid answer, where no backend is left for the decode.
abbrev answer : Bytes
answer = bytes "x-demiurge-kv-handle: 42" ++ 13 ∷ 10 ∷ bytes "x-demiurge-kv-bytes: 5000"

abbrev bare : Router thousandths
bare = with_kv_pool thousandths settings [] [] 1000000 10

abbrev signals : PrefillSignals
signals = record { request_id = 7; prompt_tokens = 100; prefill_wall = 5000 }

bare_fails :
    (on_prefill_complete thousandths echo mix readings none 0 signals answer "pf0" bare).0
    ≡ err no_backend
unfolding on_prefill_complete with_kv_pool Ledger.new parse_prefill_handoff is_valid kv_breakdown
    try_reserve_from from_utf8_lossy strip_prefix trim mul_ceil contains_key
bare_fails = refl

bare_ledger : bare.ledger ≡ some (Ledger.new 1000000)
unfolding with_kv_pool
bare_ledger = refl

on_prefill_complete-refunds_example :
    (l' : ReservationLedger) × ((on_prefill_complete thousandths echo mix readings none 0 signals
        answer "pf0" bare).1.ledger
      ≡ some l')
    × SameHoldings l' (Ledger.new 1000000)
    × Inv l'
on_prefill_complete-refunds_example =
    on_prefill_complete-refunds thousandths echo mix readings none 0 signals answer "pf0" bare
      (Ledger.new 1000000) no_backend bare_ledger (new-Inv 1000000 (omega arith)) bare_fails
