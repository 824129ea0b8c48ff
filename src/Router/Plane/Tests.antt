-- ===== src/Router/Plane/Tests.antt =====
-- A router that is given a program of the kernel at the share of a half, and comes to the whole.
use demiurge.Base.{◌≡◌, refl, false, none, some, [], bytes, inr}
use demiurge.Base.F64.{thousandths}
use demiurge.Dataplane.AdmitMode.{userspace}
use demiurge.Dataplane.Rcu.{admit_capacity_for_pi, read_pi}
use demiurge.Router.Plane.{Router, Settings, new, dataplane_admit_burst}
use demiurge.Router.Plane.Counters.{maybe_sync_admit_for_pi}
use demiurge.Router.Plane.Kernel.{with_kernel_admit, kernel_config, with_kernel_admit-stale}

abbrev settings : Settings
settings = record {
  now = 0;
  now_ms = 0;
  admit_mode = userspace;
  rebalancer_actuation = false;
  rdma_routing = false;
}

abbrev bare : Router thousandths
bare = new thousandths settings [] []

with_kernel_admit-stale_example :
    (r' : Router thousandths) × (with_kernel_admit thousandths
        (λ iface config. none)
        (bytes "eth0")
        (some 8080)
        bare
      ≡ inr r')
    × ((maybe_sync_admit_for_pi thousandths 1000 r').admit.capacity
        ≡ admit_capacity_for_pi thousandths dataplane_admit_burst
            (read_pi thousandths bare.dataplane))
unfolding new admit_capacity_for_pi
with_kernel_admit-stale_example =
    with_kernel_admit-stale thousandths (λ iface config. none) (bytes "eth0") (some 8080) bare 1000
      refl refl

capacities :
    kernel_config thousandths (some 8080) bare
    ≡ record { capacity = 2048; refill_per_sec = 4096; listen_port = some 8080 }
unfolding kernel_config new
capacities = refl
