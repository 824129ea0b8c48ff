-- ===== src/Router/Backend.antt =====
-- crates/demiurge-router/src/backend.rs: the cost of a backend. The counters of a backend are read in one
-- step each, and a slice of barriers is a list. The address, which is only dialled, is left; an EWMA is a
-- double, and the retries of its exchange leave what one step does.
pub mod Select
pub mod Minimum
use demiurge.Base.{
  ℕ, ◌+◌, ◌-◌, ◌*◌, ◌^◌, ◌%◌, Bool, true, false, ◌&&◌, ◌||◌, not, Option, none, some, List, [], ◌∷◌,
  ◌++◌, String, if◌then◌else◌, same, Bytes, u64_mod, wrapping_add,
}
use demiurge.Base.F64.{F64}
use demiurge.Cost.Factors.{zero_f, one_f, max_value, clamped_barrier, cost_from_ln}
use demiurge.Cost.Compose.{append_barriers, in_use, no_barriers, service_cost}
use demiurge.Cost.Rdma.{TopologyId, warmth_discount}
use demiurge.Control.Pairing.{PairingTarget, decode_slots}
use demiurge.Dataplane.Rcu.{pool_core_scale}
use demiurge.State.Snapshot.{StateSnapshot}
use demiurge.State.Pool.{IsolationCtx, doubles, pool_hit_strength}

module _ (D : F64) where
  pub record Backend : Type 0 where
    pub label : String
    pub topology : TopologyId
    pub base_service_seconds : D.F
    pub ln_base : D.F
    pub observed_ewma : D.F
    pub inflight : ℕ

  abbrev is_valid_base : D.F → Bool
  is_valid_base seconds = D.is_finite seconds && D.lt (zero_f D) seconds

  -- `new_with_topology`
  pub new : String → D.F → TopologyId → Backend
  new label base_service_seconds topology = record {
    label = label;
    topology = topology;
    base_service_seconds = base_service_seconds;
    ln_base =
        if is_valid_base base_service_seconds
        then D.ln base_service_seconds
        else D.ln (max_value D);
    observed_ewma = zero_f D;
    inflight = 0;
  }

  pub incr_inflight : Backend → Backend
  incr_inflight b = record b { inflight = wrapping_add b.inflight 1 }

  pub decr_inflight : Backend → Backend
  decr_inflight b = record b { inflight = wrapping_add b.inflight (u64_mod - 1) }

  -- `queue_ln`
  pub queue_ln : ℕ → D.F
  queue_ln inflight = D.ln (D.add (one_f D) (D.of_u64 inflight))

  -- 0.25, clamped
  abbrev ewma_alpha : D.F
  ewma_alpha = D.clamp (D.literal 1 2) (zero_f D) (one_f D)

  unfoldable pub note_observed_seconds : D.F → Backend → Backend
  note_observed_seconds secs b =
      let prev = b.observed_ewma in
      let mixed = D.add (D.mul ewma_alpha secs) (D.mul (D.sub (one_f D) ewma_alpha) prev) in
      if not (D.is_finite secs) || D.le secs (zero_f D)
      then b
      else record b { observed_ewma = if D.is_zero_bits prev then secs else mixed }

  pub effective_base_seconds : Backend → D.F
  effective_base_seconds b =
      let claimed =
        if is_valid_base b.base_service_seconds then b.base_service_seconds else max_value D in
      let observed = b.observed_ewma in
      if D.is_zero_bits observed
      then claimed
      else if D.is_finite observed && D.lt claimed observed
      then observed
      else claimed

  -- `effective_ln_base`, with `f64::EPSILON`
  pub effective_ln_base : Backend → D.F
  unfolding effective_base_seconds
  effective_ln_base b =
      let effective = effective_base_seconds b in
      if D.lt (D.abs (D.sub effective b.base_service_seconds)) (D.literal 1 52)
      then b.ln_base
      else if is_valid_base effective
      then D.ln effective
      else D.ln (max_value D)

  pub cost : Backend → D.F
  unfolding effective_ln_base queue_ln cost_from_ln
  cost b = cost_from_ln D (D.add (effective_ln_base b) (queue_ln b.inflight))

  -- `ln_base + ln_scale + queue_ln`, as `selection_ln` and the loop of `select_with_barriers_pi` have it
  pub selection_ln : D.F → Bool → Backend → D.F
  unfolding effective_ln_base pool_core_scale queue_ln
  selection_ln pool_pi prefill b =
      D.add (D.add (effective_ln_base b) (D.ln (pool_core_scale D (one_f D) pool_pi prefill)))
        (queue_ln b.inflight)

  -- `cost_with_barriers_pi`
  unfoldable pub cost_with_barriers : List D.F → D.F → Bool → Backend → D.F
  unfolding selection_ln effective_base_seconds pool_core_scale service_cost cost_from_ln
  cost_with_barriers [] pool_pi prefill b = cost_from_ln D (selection_ln pool_pi prefill b)
  cost_with_barriers (x ∷ extra) pool_pi prefill b =
      service_cost D (pool_core_scale D (effective_base_seconds b) pool_pi prefill) b.inflight
        (x ∷ extra) []

  module _ (mac : Bytes → Bytes) (salt_block : ℕ → ℕ → ℕ) where
    unfoldable pub warmth_discount_for :
        Option (StateSnapshot (doubles D))
        → Bool
        → String
        → List ℕ
        → Option IsolationCtx
        → Option D.F
    unfolding warmth_discount pool_hit_strength
    warmth_discount_for none decode_pool label blocks isolation = none
    warmth_discount_for (some snap) decode_pool label blocks isolation =
        warmth_discount D
          (pool_hit_strength D mac salt_block decode_pool label blocks isolation snap)

    -- The cost by the discount, if there is one.
    unfoldable pub cost_with_discount : List D.F → Bool → D.F → Backend → Option D.F → D.F
    unfolding cost_with_barriers effective_base_seconds pool_core_scale service_cost
    cost_with_discount extra decode_pool pool_pi b none =
        cost_with_barriers extra pool_pi (not decode_pool) b
    cost_with_discount extra decode_pool pool_pi b (some d) =
        service_cost D (pool_core_scale D (effective_base_seconds b) pool_pi (not decode_pool))
          b.inflight extra (d ∷ [])

    -- `cost_with_isolation_pi`, and with no isolation `cost_with_warmth_pi`
    unfoldable pub cost_with_isolation :
        List D.F
        → Option (StateSnapshot (doubles D))
        → List ℕ
        → Bool
        → D.F
        → Option IsolationCtx
        → Backend
        → D.F
    unfolding cost_with_discount warmth_discount_for
    cost_with_isolation extra snapshot blocks decode_pool pool_pi isolation b =
        cost_with_discount extra decode_pool pool_pi b
          (warmth_discount_for snapshot decode_pool b.label blocks isolation)

    -- `PairingTarget`: the scores of a backend for shadow pairing
    unfoldable pub prefill_ln : Option (StateSnapshot (doubles D)) → List ℕ → Backend → D.F
    unfolding cost_with_isolation
    prefill_ln snapshot blocks b =
        cost_with_isolation [] snapshot blocks false (D.literal 1 1) none b

    unfoldable pub decode_ln :
        Option (StateSnapshot (doubles D)) → List ℕ → String → D.F → List D.F → Backend → D.F
    unfolding cost_with_isolation decode_slots
    decode_ln snapshot blocks prefill_label transfer_penalty extra_barriers b =
        cost_with_isolation (decode_slots D prefill_label b.label transfer_penalty extra_barriers)
          snapshot blocks true (D.literal 1 1) none b

    -- `impl PairingTarget for Backend`
    abbrev pub backend_target : PairingTarget D Backend
    backend_target = record {
      label_of = λ b. b.label;
      prefill_ln = prefill_ln;
      decode_ln = decode_ln;
    }
