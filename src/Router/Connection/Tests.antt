-- ===== src/Router/Connection/Tests.antt =====
-- A connection whose prefill answers with a valid hand-off.
use demiurge.Base.{◌≡◌, refl, none, some, [], ◌∷◌, ◌++◌, bytes, arith}
use demiurge.Base.F64.{thousandths}
use demiurge.Http.{Read}
use demiurge.Http
use demiurge.Ledger.{ReservationLedger, try_reserve_from}
use demiurge.Ledger
use demiurge.Ledger.Invariant.{new-Inv}
use demiurge.Router.Plane.{with_kv_pool}
use demiurge.Router.Connection.{Inputs, handle_conn}
use demiurge.Router.Connection.Refund.{Holds, handle_conn-Holds}
use demiurge.Router.RouteTests.{echo, mix, router, around, readings}

abbrev inputs : Inputs
inputs = record {
  reads = Http.chunk (bytes "POST /long/700 HTTP/1.1" ++ 13 ∷ 10 ∷ 13 ∷ 10 ∷ []) ∷ [];
  around = around;
  routed_at = readings;
  response =
      some (bytes "x-demiurge-kv-handle: 42" ++ 13 ∷ 10 ∷ bytes "x-demiurge-kv-bytes: 12000");
  prefill_wall = 5000;
  reserved_at = 0;
  completed_at = readings;
  colocated_value = none;
}

router_ledger : router.ledger ≡ some (Ledger.new 1000000)
unfolding with_kv_pool
router_ledger = refl

handle_conn-Holds_example :
    Holds (Ledger.new 1000000) (handle_conn thousandths echo mix (λ b. 0) inputs router).1.ledger
handle_conn-Holds_example =
    handle_conn-Holds thousandths echo mix (λ b. 0) inputs (Ledger.new 1000000)
      (new-Inv 1000000 (omega arith)) router router_ledger
