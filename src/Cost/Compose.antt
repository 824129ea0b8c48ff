-- ===== src/Cost/Compose.antt =====
-- crates/demiurge-cost/src/lib.rs: the composition of a cost in log space, and the assembly of the
-- cost of a service. A slice that is written to and the number of its slots in use are passed on.
pub mod Assembly
use demiurge.Base.{
  ℕ, zero, suc, ◌+◌, ◌-◌, ◌≡◌, Bool, true, false, List, [], ◌∷◌, leb, if◌then◌else◌, length, take,
  arith,
}
use demiurge.Base.F64.{F64}
use demiurge.Cost.Factors.{one_f, max_value, clamped_barrier, time_core, cost_from_ln}

-- `MAX_SERVICE_BARRIERS`
abbrev pub max_service_barriers : ℕ
max_service_barriers = 16

-- `buf[i] = x`, for an index in bounds
abbrev pub set_slot {ℓ} : {A : Type ℓ} → List A → ℕ → A → List A
set_slot [] i x = []
set_slot (y ∷ ys) zero x = x ∷ ys
set_slot (y ∷ ys) (suc i) x = y ∷ set_slot ys i x

-- `[x; n]`
abbrev pub filled {ℓ} : {A : Type ℓ} → ℕ → A → List A
filled zero x = []
filled (suc n) x = x ∷ filled n x

module _ (D : F64) where
  -- `for b in barriers { ln += b.get().ln() }`
  pub add_lns : D.F → List D.F → D.F
  add_lns ln [] = ln
  add_lns ln (b ∷ bs) = add_lns (D.add ln (D.ln b)) bs

  unfoldable pub compose : D.F → List D.F → List D.F → D.F → D.F
  unfolding add_lns cost_from_ln
  compose core barriers discounts c =
      let ln = add_lns (add_lns (D.ln core) barriers) discounts in
      cost_from_ln D (if D.eq c (one_f D) then ln else D.add ln (D.ln c))

  -- `append_barriers_fail_expensive`: the slots and how many are in use. On overflow the last slot, if
  -- there is one, becomes the largest barrier.
  unfoldable pub append_barriers : List D.F → ℕ → List D.F → List D.F × ℕ
  unfolding clamped_barrier
  append_barriers buf len [] = (buf, len)
  append_barriers buf len (b ∷ bs) =
      let rest = append_barriers (set_slot buf len b) (suc len) bs in
      if leb (length buf) len
      then (set_slot buf (length buf - 1) (clamped_barrier D (max_value D)), len)
      else rest

  -- `[BarrierFactor::clamped(1.0); MAX_SERVICE_BARRIERS]`
  unfoldable pub no_barriers : List D.F
  unfolding clamped_barrier
  no_barriers = filled max_service_barriers (clamped_barrier D (one_f D))

  -- `&buf[..len]`
  unfoldable pub in_use : List D.F × ℕ → List D.F
  in_use (buf, len) = take len buf

  -- `BarrierFactor::clamped(1.0 + inflight as f64)`
  unfoldable pub queue_barrier : ℕ → D.F
  unfolding clamped_barrier
  queue_barrier inflight = clamped_barrier D (D.add (one_f D) (D.of_u64 inflight))

  unfoldable pub service_cost : D.F → ℕ → List D.F → List D.F → D.F
  unfolding queue_barrier no_barriers append_barriers in_use compose time_core
  service_cost core_seconds inflight extra_barriers discounts =
      let buf = set_slot no_barriers 0 (queue_barrier inflight) in
      compose (time_core D core_seconds) (in_use (append_barriers buf 1 extra_barriers)) discounts
        (one_f D)

  -- The class invariant of a cost: its logarithm is finite, as the largest double is.
  pub compose-is_finite :
      (core : D.F) (barriers discounts : List D.F) (c : D.F)
      → D.is_finite (max_value D) ≡ true
      → D.is_finite (compose core barriers discounts c) ≡ true
  unfolding compose cost_from_ln
  compose-is_finite core barriers discounts c h = ground (arith, h)

  pub service_cost-is_finite :
      (core_seconds : D.F) (inflight : ℕ) (extra discounts : List D.F)
      → D.is_finite (max_value D) ≡ true
      → D.is_finite (service_cost core_seconds inflight extra discounts) ≡ true
  unfolding service_cost compose cost_from_ln
  service_cost-is_finite core_seconds inflight extra discounts h = ground (arith, h)
