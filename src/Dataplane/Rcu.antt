-- ===== src/Dataplane/Rcu.antt =====
-- crates/demiurge-dataplane/src/rcu.rs: the table that the data plane reads. A load and a store of the
-- pointer are single steps; the clock's reading in milliseconds is an argument.
use demiurge.Base.{ℕ, ◌+◌, ◌-◌, ◌<◌, ◌≡◌, ◌↔◌, max, Bool, true, ltb, if◌then◌else◌, arith}
use demiurge.Base.F64.{F64}

module _ (D : F64) where
  pub record DataPlaneSnapshot : Type 0 where
    pub generation : ℕ
    pub pi : D.F
    pub published_at_ms : ℕ

  unfoldable pub new_snapshot : ℕ → ℕ → D.F → DataPlaneSnapshot
  new_snapshot now_ms generation pi = record {
    generation = generation;
    pi = D.clamp pi (D.literal 0 0) (D.literal 1 0);
    published_at_ms = now_ms;
  }

  pub record RcuRoutingTable : Type 0 where
    pub current : DataPlaneSnapshot

  unfoldable pub new : ℕ → D.F → RcuRoutingTable
  unfolding new_snapshot
  new now_ms initial_pi = record { current = new_snapshot now_ms 0 initial_pi }

  unfoldable pub read : RcuRoutingTable → DataPlaneSnapshot
  read t = t.current

  unfoldable pub read_pi : RcuRoutingTable → D.F
  read_pi t = t.current.pi

  unfoldable pub generation_of : RcuRoutingTable → ℕ
  generation_of t = t.current.generation

  unfoldable pub publish : DataPlaneSnapshot → RcuRoutingTable → RcuRoutingTable
  publish snap t = record { current = snap }

  unfoldable pub publish_pi : ℕ → ℕ → D.F → RcuRoutingTable → RcuRoutingTable
  unfolding publish new_snapshot
  publish_pi now_ms generation pi t = publish (new_snapshot now_ms generation pi) t

  unfoldable pub age_ms : ℕ → RcuRoutingTable → ℕ
  age_ms now_ms t = now_ms - t.current.published_at_ms

  unfoldable pub is_stale : ℕ → ℕ → RcuRoutingTable → Bool
  unfolding age_ms
  is_stale now_ms alert_ms t = ltb alert_ms (age_ms now_ms t)

  unfoldable pub pool_core_scale : D.F → D.F → Bool → D.F
  pool_core_scale base_seconds pi prefill =
      let p = D.clamp pi (D.literal 3602879701896397 56) (D.literal 4278419646001971 52) in
      if prefill
      then D.div (D.mul base_seconds (D.sub (D.literal 1 0) p)) p
      else D.div (D.mul base_seconds p) (D.sub (D.literal 1 0) p)

  -- `admit_capacity_for_pi` of lib.rs beside it, whose clamp is to 0.1 and 1
  unfoldable pub admit_capacity_for_pi : ℕ → D.F → ℕ
  admit_capacity_for_pi base_burst pi =
      let scaled =
        D.mul (D.of_u64 base_burst) (D.clamp pi (D.literal 3602879701896397 55) (D.literal 1 0)) in
      max (D.round_u64 scaled) 1

  -- A published table is reported as stale just from `alert_ms` milliseconds after it was published on.
  is_stale-publish_pi :
      (published now alert_ms generation : ℕ) (pi : D.F) (t : RcuRoutingTable)
      → (is_stale now alert_ms (publish_pi published generation pi t) ≡ true)
        ↔ (published + alert_ms < now)
  unfolding is_stale publish_pi
  is_stale-publish_pi published now alert_ms generation pi t =
      (λ h. ground arith, λ h. ground arith)
