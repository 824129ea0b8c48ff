-- ===== src/Control/Rebalancer.antt =====
-- crates/demiurge-control/src/rebalancer.rs and pressure.rs beside it: the share of the prefill pool,
-- when it may change, and the pressures that it is computed from. An `Instant` is a number of
-- nanoseconds, and the clock's reading is an argument.
pub mod Cooldown
use demiurge.Base.{
  ℕ, zero, suc, ◌+◌, ◌-◌, ◌*◌, Bool, true, false, Option, none, some, List, [], ◌∷◌, ltb, ◌==◌,
  if◌then◌else◌, map, String, Map,
}
use demiurge.Base.F64.{F64}

-- `POOL_REBALANCE_COOLDOWN_S`, in nanoseconds
abbrev pub cooldown : ℕ
cooldown = 300 * 1_000_000_000

pub data RebalancerMode : Type 0 where
  shadow can_actuate : RebalancerMode

module _ (D : F64) where
  abbrev zero_f : D.F
  zero_f = D.literal 0 0

  abbrev one_f : D.F
  one_f = D.literal 1 0

  pub record PoolPressure : Type 0 where
    pub q_prefill : D.F
    pub q_decode : D.F
    pub kv_decode : D.F
    pub slo_prefill : D.F
    pub slo_decode : D.F
    pub fp_share : D.F

  -- The loop of `mean_f64`: the sum and the number of the values.
  pub sum_f64 : List D.F → D.F → ℕ → D.F × ℕ
  sum_f64 [] sum n = (sum, n)
  sum_f64 (v ∷ vs) sum n = sum_f64 vs (D.add sum v) (n + 1)

  pub mean_f64 : List D.F → D.F
  unfolding sum_f64
  mean_f64 values =
      let (sum, n) = sum_f64 values zero_f 0 in
      if n == 0 then zero_f else D.clamp (D.div sum (D.of_u64 n)) zero_f one_f

  pub mean_occupancy : List D.F → D.F
  unfolding mean_f64
  mean_occupancy values = mean_f64 (map (λ v. D.clamp v zero_f one_f) values)

  -- On the occupancies of both pools and the memory pressures of the decode pool, in one order.
  unfoldable pub export_pool_pressure : List D.F → List D.F → List D.F → D.F → PoolPressure
  unfolding mean_occupancy
  export_pool_pressure prefill decode kv_pressures fp_share = record {
    q_prefill = mean_occupancy prefill;
    q_decode = mean_occupancy decode;
    kv_decode = mean_f64 kv_pressures;
    slo_prefill = zero_f;
    slo_decode = zero_f;
    fp_share = D.clamp fp_share zero_f one_f;
  }

  pub record PoolRebalancer : Type 0 where
    pub pi : D.F
    pub last_change : ℕ
    pub mode : RebalancerMode

  -- `checked_sub` has no result where the clock has not run for so long.
  unfoldable pub new : RebalancerMode → ℕ → PoolRebalancer
  new mode now = record {
    pi = D.literal 1 1;
    last_change =
        if ltb now (cooldown + 1_000_000_000) then now else now - (cooldown + 1_000_000_000);
    mode = mode;
  }

  -- 0.35, 0.3 and 0.1
  abbrev weight_queue : D.F
  weight_queue = D.literal 3152519739159347 53

  abbrev weight_slo : D.F
  weight_slo = D.literal 3152519739159347 53

  abbrev weight_kv : D.F
  weight_kv = D.literal 5404319552844595 54

  abbrev hysteresis : D.F
  hysteresis = D.literal 3602879701896397 55

  unfoldable pub compute_pi_star : PoolPressure → PoolRebalancer → D.F
  compute_pi_star s r =
      let demand_prefill =
        D.add (D.mul weight_queue s.q_prefill)
          (D.mul (D.mul weight_slo s.slo_prefill) (D.sub one_f s.fp_share)) in
      let demand_decode =
        D.add (D.add (D.mul weight_queue s.q_decode) (D.mul weight_kv s.kv_decode))
          (D.mul weight_slo s.slo_decode) in
      let total = D.add demand_prefill demand_decode in
      if D.le total zero_f then r.pi else D.clamp (D.div demand_prefill total) zero_f one_f

  -- The return value, and the rebalancer.
  unfoldable pub maybe_update : ℕ → PoolPressure → PoolRebalancer → Option D.F × PoolRebalancer
  unfolding compute_pi_star
  maybe_update now s r =
      let pi_star = compute_pi_star s r in
      if D.le (D.abs (D.sub pi_star r.pi)) hysteresis
      then (none, r)
      else if ltb (now - r.last_change) cooldown
      then (none, r)
      else elim r.mode [
        | shadow ↦ (none, r)
        | can_actuate ↦ (some pi_star, record r { pi = pi_star; last_change = now })
      ]

  unfoldable pub shadow_pi_star : PoolPressure → PoolRebalancer → D.F
  shadow_pi_star s r = compute_pi_star s r

  unfoldable pub force_actuate : ℕ → D.F → PoolRebalancer → D.F × PoolRebalancer
  force_actuate now pi_star r = elim r.mode [
    | shadow ↦ (r.pi, r)
    | can_actuate ↦
        let pi = D.clamp pi_star zero_f one_f in (pi, record r { pi = pi; last_change = now })
  ]
