-- ===== src/Cost/Tests.antt =====
-- Runs of the footprint and the percentile, and each theorem at a concrete input.
use demiurge.Base.{ℕ, ◌≡◌, refl, List, [], ◌∷◌, sort}
use demiurge.Base.Float.{mul_ceil}
use demiurge.Base.F64.{thousandths}
use demiurge.Cost.Factors.{one_f, time_core}
use demiurge.Cost.Compose.{service_cost, compose, queue_barrier, max_service_barriers, filled}
use demiurge.Cost.Compose.Assembly.{fit, service_cost_lem}
use demiurge.Cost.Kv.{kv_breakdown, percentile90}

-- As in the source's test: 100 tokens take one block of 256.
breakdown_100 : (kv_breakdown 100 128).kv_tokens ≡ 256
unfolding kv_breakdown
breakdown_100 = refl

breakdown_100_reserved : (kv_breakdown 100 128).kv_reserved ≡ 37029
unfolding kv_breakdown mul_ceil
breakdown_100_reserved = refl

abbrev sizes : List ℕ
sizes = 30 ∷ 10 ∷ 100 ∷ 20 ∷ 90 ∷ 40 ∷ 60 ∷ 50 ∷ 80 ∷ 70 ∷ []

sizes_p90 : percentile90 sizes ≡ 90
unfolding percentile90 mul_ceil sort
sizes_p90 = refl

abbrev seventeen : List ℕ
seventeen = filled 17 2000

-- Of 17 further barriers the last three give way to the largest.
service_cost_lem_example :
    service_cost thousandths 1000 3 seventeen []
    ≡ compose thousandths
        (time_core thousandths 1000)
        (fit thousandths max_service_barriers (queue_barrier thousandths 3 ∷ seventeen))
        []
        (one_f thousandths)
service_cost_lem_example = service_cost_lem thousandths 1000 3 seventeen []
