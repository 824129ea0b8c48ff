-- ===== src/Cost/Rdma.antt =====
-- crates/demiurge-cost/src/rdma.rs and warmth.rs beside it: the distance of two backends, the time of a
-- transfer between them, and the discount for a warm cache.
use demiurge.Base.{
  ℕ, ◌≡◌, refl, ◌↔◌, ◌&&◌, ◌||◌, not, Option, none, some, String, ◌==◌, if◌then◌else◌, same,
  same_iff, same_sym, arith,
}
use demiurge.Base.F64.{F64}
use demiurge.Cost.Factors.{zero_f, one_f, max_value, clamped_barrier, clamped_discount, time_core}

pub record TopologyId : Type 0 where
  pub node : String
  pub rack : String
  pub cluster : String

abbrev topology_rdma_same_node : ℕ
topology_rdma_same_node = 0

abbrev topology_rdma_same_rack : ℕ
topology_rdma_same_rack = 1

abbrev topology_rdma_same_cluster : ℕ
topology_rdma_same_cluster = 2

abbrev topology_rdma_cross_cluster : ℕ
topology_rdma_cross_cluster = 10

unfoldable pub rdma_distance : TopologyId → TopologyId → ℕ
rdma_distance a b =
    if same a.node b.node
    then topology_rdma_same_node
    else if same a.rack b.rack && same a.cluster b.cluster
    then topology_rdma_same_rack
    else if same a.cluster b.cluster
    then topology_rdma_same_cluster
    else topology_rdma_cross_cluster

-- The latency of each step of the ladder, in microseconds.
pub base_latency_us : ℕ → ℕ
base_latency_us distance =
    if distance == topology_rdma_same_node
    then 5
    else if distance == topology_rdma_same_rack
    then 15
    else if distance == topology_rdma_same_cluster
    then 40
    else 500

module _ (D : F64) where
  -- 200 gigabits per second, and 1e9
  pub transfer_seconds : ℕ → ℕ → D.F
  unfolding base_latency_us
  transfer_seconds bytes distance =
      let base = D.div (D.of_u64 (base_latency_us distance)) (D.literal 1000000 0) in
      let bw_bytes_per_s =
        D.div (D.mul (D.literal 200 0) (D.literal 1000000000 0)) (D.literal 8 0) in
      D.add base (D.div (D.of_u64 bytes) bw_bytes_per_s)

  unfoldable pub transfer_ln : ℕ → TopologyId → TopologyId → D.F
  unfolding rdma_distance transfer_seconds time_core
  transfer_ln bytes pf dc = D.ln (time_core D (transfer_seconds bytes (rdma_distance pf dc)))

  pub transfer_barrier : ℕ → TopologyId → TopologyId → D.F
  unfolding rdma_distance transfer_seconds clamped_barrier
  transfer_barrier bytes pf dc =
      let seconds = transfer_seconds bytes (rdma_distance pf dc) in
      let nominal = D.div (D.of_u64 5) (D.literal 1000000 0) in
      clamped_barrier D (D.max_of (D.div seconds nominal) (one_f D))

  -- 0.85
  abbrev warmth_max_discount : D.F
  warmth_max_discount = D.literal 7656119366529843 53

  unfoldable pub warmth_discount : D.F → Option D.F
  unfolding clamped_discount
  warmth_discount strength =
      if not (D.is_finite strength) || D.le strength (zero_f D)
      then none
      else some (
          clamped_discount D
            (D.sub (one_f D) (D.mul (D.clamp strength (zero_f D) (one_f D)) warmth_max_discount)))

  -- `phi_barrier`, whose occupancy is clamped to 0.999
  unfoldable pub phi_barrier : ℕ → ℕ → D.F
  unfolding clamped_barrier
  phi_barrier fleet_reserved capacity_bytes =
      let util =
        D.clamp (D.div (D.of_u64 fleet_reserved) (D.of_u64 capacity_bytes)) (zero_f D)
          (D.literal 8998192055486251 53) in
      if capacity_bytes == 0
      then clamped_barrier D (max_value D)
      else clamped_barrier D (D.div (one_f D) (D.sub (one_f D) util))

-- Backends are at least as near as they share more: the distance does not depend on the direction, and
-- it is none just within one node.
pub rdma_distance_lem :
    (a b : TopologyId)
    → (rdma_distance a b ≡ rdma_distance b a) × ((rdma_distance a b ≡ 0) ↔ (a.node ≡ b.node))
unfolding rdma_distance
rdma_distance_lem a b = (
  rw (same_sym a.node b.node, same_sym a.rack b.rack, same_sym a.cluster b.cluster) refl,
  ground (arith, same_iff a.node b.node),
)
