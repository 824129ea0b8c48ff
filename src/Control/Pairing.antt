-- ===== src/Control/Pairing.antt =====
-- crates/demiurge-control/src/pairing.rs and scored.rs beside it: the greedy choice of a pair of
-- backends, and how far it is from the best pair. The trait `PairingTarget` is a record of its methods.
pub mod Oracle
use demiurge.Base.{
  ℕ, ◌≡◌, sym, ap, ◌∙◌, subst, inl, inr, Option-cases, Bool, true, false, Option, none, some, List,
  [], ◌∷◌, String, if◌then◌else◌, same, Bytes,
}
use mathlib.Core.Option.{none-ne-some, some-injective}
use demiurge.Base.Choose.{min_by}
use demiurge.Base.F64.{F64}
use demiurge.Cost.Factors.{zero_f, one_f, clamped_barrier}
use demiurge.Cost.Compose.{append_barriers, in_use, no_barriers, service_cost}
use demiurge.Cost.Rdma.{warmth_discount}
use demiurge.State.Snapshot.{StateSnapshot}
use demiurge.State.Warmth.{default_routing_blocks}
use demiurge.State.Pool.{doubles, pool_hit_strength}

both : {T : Type 0} → T → Option T → Option (T × T)
both p none = none
both p (some d) = some (p, d)

module _ (D : F64) where
  abbrev pub Snap : Type 0
  Snap = Option (StateSnapshot (doubles D))

  pub record PairingTarget (T : Type 0) : Type 0 where
    pub label_of : T → String
    pub prefill_ln : Snap → List ℕ → T → D.F
    -- by the prefill's label, the penalty of a transfer and further barriers
    pub decode_ln : Snap → List ℕ → String → D.F → List D.F → T → D.F

  module _ {T : Type 0} (target : PairingTarget T) where
    unfoldable pub select_prefill_target : List T → Snap → ℕ → Option T
    unfolding min_by default_routing_blocks
    select_prefill_target candidates snapshot prompt_tokens =
        let key = target.prefill_ln snapshot (default_routing_blocks prompt_tokens) in
        min_by (λ a b. D.total_le (key a) (key b)) candidates

    unfoldable pub select_decode_target : String → List T → Snap → ℕ → D.F → List D.F → Option T
    unfolding min_by default_routing_blocks
    select_decode_target prefill_label candidates snapshot prompt_tokens penalty extra =
        let key =
          target.decode_ln snapshot (default_routing_blocks prompt_tokens) prefill_label penalty
            extra in
        min_by (λ a b. D.total_le (key a) (key b)) candidates

    -- `joint_ln_targets`, with no further barriers
    unfoldable pub joint_ln : Snap → List ℕ → D.F → T → T → D.F
    joint_ln snapshot blocks penalty pf dc =
        D.add (target.prefill_ln snapshot blocks pf)
          (target.decode_ln snapshot blocks (target.label_of pf) penalty [] dc)

    -- The loops of the oracle of `pairing_regret_targets`, over any joint cost.
    unfoldable pub oracle_row : (T → T → D.F) → T → List T → D.F → D.F
    oracle_row joint p [] least = least
    oracle_row joint p (d ∷ ds) least = oracle_row joint p ds (D.min_of least (joint p d))

    unfoldable pub oracle_cost : (T → T → D.F) → List T → List T → D.F → D.F
    unfolding oracle_row
    oracle_cost joint [] ds least = least
    oracle_cost joint (p ∷ ps) ds least = oracle_cost joint ps ds (oracle_row joint p ds least)

    -- A choice, and a second that depends on it.
    pub paired : Option T → (T → Option T) → Option (T × T)
    unfolding both
    paired none next = none
    paired (some p) next = both p (next p)

    -- The pair, of which there is none just where a pool is empty.
    unfoldable pub greedy_pair : List T → List T → Snap → ℕ → D.F → Option (T × T)
    unfolding select_prefill_target select_decode_target paired
    greedy_pair prefill_pool decode_pool snapshot prompt_tokens penalty =
        paired (select_prefill_target prefill_pool snapshot prompt_tokens) (λ pf.
          select_decode_target (target.label_of pf) decode_pool snapshot prompt_tokens penalty [])

    abbrev regret_of : D.F → D.F → D.F
    regret_of greedy oracle = D.sub (D.exp (D.sub greedy oracle)) (one_f D)

    paired_lem :
        (first : Option T) (next : T → Option T) (pf dc : T)
        → paired first next ≡ some (pf, dc)
        → (first ≡ some pf) × (next pf ≡ some dc)
    unfolding paired both
    paired_lem none next pf dc e = absurd (none-ne-some _ e)
    paired_lem (some p) next pf dc e = elim (Option-cases (next p)) [
      | inl h ↦ absurd (none-ne-some _ (sym (ap (both p) h) ∙ e))
      | inr (d, h) ↦
          let q = some-injective _ _ (sym (ap (both p) h) ∙ e) in
          (
            ap (λ r. some r.0) q,
            subst (λ r. next r ≡ some dc) (ap (λ r. r.0) q) (h ∙ ap (λ r. some r.1) q),
          )
    ]

    -- A pair is made of the two choices.
    pub greedy_pair-choices :
        (ps ds : List T) (snapshot : Snap) (prompt_tokens : ℕ) (penalty : D.F) (pf dc : T)
        → greedy_pair ps ds snapshot prompt_tokens penalty ≡ some (pf, dc)
        → (select_prefill_target ps snapshot prompt_tokens ≡ some pf)
          × (select_decode_target (target.label_of pf) ds snapshot prompt_tokens penalty []
              ≡ some dc)
    unfolding greedy_pair
    greedy_pair-choices ps ds snapshot prompt_tokens penalty pf dc e =
        paired_lem (select_prefill_target ps snapshot prompt_tokens)
          (λ p. select_decode_target (target.label_of p) ds snapshot prompt_tokens penalty []) pf dc
          e

    unfoldable pub pairing_regret_targets : List T → List T → Snap → ℕ → D.F → D.F
    unfolding greedy_pair oracle_cost joint_ln default_routing_blocks
    pairing_regret_targets prefill_pool decode_pool snapshot prompt_tokens penalty =
        let joint = joint_ln snapshot (default_routing_blocks prompt_tokens) penalty in
        elim (greedy_pair prefill_pool decode_pool snapshot prompt_tokens penalty) [
          | none ↦ zero_f D
          | some (pf, dc) ↦
              regret_of (joint pf dc) (oracle_cost joint prefill_pool decode_pool D.infinity)
        ]

    -- The loops of `oracle_pair`: the least cost so far, with its pair.
    pub oracle_pair_row : (T → T → D.F) → T → List T → Option (D.F × T × T) → Option (D.F × T × T)
    oracle_pair_row joint p [] found = found
    oracle_pair_row joint p (d ∷ ds) none = oracle_pair_row joint p ds (some (joint p d, p, d))
    oracle_pair_row joint p (d ∷ ds) (some (ln, q, e)) =
        oracle_pair_row joint p ds
          (if D.lt (joint p d) ln then some (joint p d, p, d) else some (ln, q, e))

    pub oracle_pairs : (T → T → D.F) → List T → List T → Option (D.F × T × T) → Option (D.F × T × T)
    unfolding oracle_pair_row
    oracle_pairs joint [] ds found = found
    oracle_pairs joint (p ∷ ps) ds found =
        oracle_pairs joint ps ds (oracle_pair_row joint p ds found)

    pub oracle_pair : List T → List T → Snap → ℕ → D.F → Option (D.F × T × T)
    unfolding oracle_pairs joint_ln default_routing_blocks
    oracle_pair prefill_pool decode_pool snapshot prompt_tokens penalty =
        oracle_pairs (joint_ln snapshot (default_routing_blocks prompt_tokens) penalty) prefill_pool
          decode_pool none

  -- The barriers of a backend for decode: those that are given, and the transfer's if the prefill is
  -- on another backend.
  unfoldable pub decode_slots : String → String → D.F → List D.F → List D.F
  unfolding append_barriers in_use no_barriers clamped_barrier
  decode_slots prefill_label label penalty extra =
      let (buf, len) = append_barriers D (no_barriers D) 0 extra in
      in_use D (
        if same prefill_label label
        then (buf, len)
        else append_barriers D buf len (clamped_barrier D (D.max_of penalty (one_f D)) ∷ []))

  pub record ScoredBackend : Type 0 where
    pub label : String
    pub base_service_seconds : D.F
    pub inflight : ℕ

  unfoldable pub base_cost : List D.F → List D.F → ScoredBackend → D.F
  unfolding service_cost
  base_cost extra discounts b = service_cost D b.base_service_seconds b.inflight extra discounts

  abbrev listed : Option D.F → List D.F
  listed none = []
  listed (some d) = d ∷ []

  module _ (mac : Bytes → Bytes) (salt_block : ℕ → ℕ → ℕ) where
    unfoldable pub pool_discounts : Snap → Bool → String → List ℕ → List D.F
    unfolding warmth_discount pool_hit_strength
    pool_discounts none decode_pool label blocks = []
    pool_discounts (some snap) decode_pool label blocks =
        listed (
          warmth_discount D (pool_hit_strength D mac salt_block decode_pool label blocks none snap))

    unfoldable pub prefill_cost : Snap → List ℕ → ScoredBackend → D.F
    unfolding base_cost pool_discounts
    prefill_cost snapshot blocks b = base_cost [] (pool_discounts snapshot false b.label blocks) b

    unfoldable pub decode_cost : Snap → List ℕ → String → D.F → List D.F → ScoredBackend → D.F
    unfolding base_cost pool_discounts decode_slots
    decode_cost snapshot blocks prefill_label penalty extra b =
        base_cost (decode_slots prefill_label b.label penalty extra)
          (pool_discounts snapshot true b.label blocks) b

    -- `impl PairingTarget for ScoredBackend`
    abbrev pub scored_target : PairingTarget ScoredBackend
    scored_target = record {
      label_of = λ b. b.label;
      prefill_ln = prefill_cost;
      decode_ln = decode_cost;
    }
