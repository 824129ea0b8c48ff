-- ===== src/Router/Backend/Select.antt =====
-- crates/demiurge-router/src/backend.rs: the choice of a backend by its cost.
use demiurge.Base.{
  ℕ, Bool, true, false, Option, none, some, List, [], ◌∷◌, ◌++◌, String, if◌then◌else◌, same, Bytes,
}
use demiurge.Base.Choose.{min_by}
use demiurge.Base.F64.{F64}
use demiurge.Cost.Factors.{one_f, clamped_barrier}
use demiurge.Cost.Rdma.{TopologyId, transfer_ln}
use demiurge.State.Snapshot.{StateSnapshot}
use demiurge.State.Pool.{IsolationCtx, doubles}
use demiurge.State.Warmth.{default_routing_blocks}
use demiurge.Router.Backend.{Backend, selection_ln, cost_with_barriers, cost_with_isolation}

-- `DecodePlacementCtx`
pub record DecodePlacementCtx : Type 0 where
  pub prefill_label : String
  pub pf_topo : TopologyId
  pub kv_bytes : ℕ
  pub use_rdma_routing : Bool

module _ (D : F64) where
  -- `total_cmp` of two costs by a key, where it does not answer `Greater`
  abbrev pub by_key : (Backend D → D.F) → Backend D → Backend D → Bool
  by_key key a b = D.total_le (key a) (key b)

  -- The key that `select_with_barriers_pi` compares by: a bare sum where there are no barriers.
  pub barriers_key : List D.F → D.F → Bool → Backend D → D.F
  barriers_key [] pool_pi prefill b = selection_ln D pool_pi prefill b
  barriers_key (x ∷ extra) pool_pi prefill b = cost_with_barriers D (x ∷ extra) pool_pi prefill b

  unfoldable pub select_with_barriers_pi :
      List (Backend D) → List D.F → D.F → Bool → Option (Backend D)
  unfolding barriers_key min_by
  select_with_barriers_pi candidates extra pool_pi prefill =
      min_by (by_key (barriers_key extra pool_pi prefill)) candidates

  pub select_with_barriers : List (Backend D) → List D.F → Option (Backend D)
  unfolding select_with_barriers_pi
  select_with_barriers candidates extra =
      select_with_barriers_pi candidates extra (D.literal 1 1) true

  pub select : List (Backend D) → Option (Backend D)
  unfolding select_with_barriers
  select candidates = select_with_barriers candidates []

  -- 1.05
  abbrev pub routing_transfer_penalty : D.F
  routing_transfer_penalty = D.literal 4728779608739021 52

  pub transfer_penalty : DecodePlacementCtx → Backend D → Option D.F
  unfolding transfer_ln
  transfer_penalty ctx candidate =
      let rdma = D.exp (transfer_ln D ctx.kv_bytes ctx.pf_topo candidate.topology) in
      if same ctx.prefill_label candidate.label
      then none
      else some
          (D.max_of (if ctx.use_rdma_routing then rdma else routing_transfer_penalty) (one_f D))

  -- The barriers of a candidate for decode: those of the pool, and the transfer's if there is one.
  pub decode_barriers : DecodePlacementCtx → List D.F → Backend D → List D.F
  unfolding transfer_penalty clamped_barrier
  decode_barriers ctx extra candidate = elim (transfer_penalty ctx candidate) [
    | none ↦ extra
    | some penalty ↦ extra ++ (clamped_barrier D penalty ∷ [])
  ]

  -- The loop of `select_decode_with_pi` over the candidates, by the cost of each.
  unfoldable pub decode_loop :
      (Backend D → D.F) → Option (D.F × Backend D) → List (Backend D) → Option (D.F × Backend D)
  decode_loop key found [] = found
  decode_loop key none (c ∷ cs) = decode_loop key (some (key c, c)) cs
  decode_loop key (some (ln, b)) (c ∷ cs) =
      decode_loop key (if D.lt (key c) ln then some (key c, c) else some (ln, b)) cs

  -- `best.map(|(_, b)| Arc::clone(b))`
  abbrev pub chosen : Option (D.F × Backend D) → Option (Backend D)
  chosen none = none
  chosen (some (ln, b)) = some b

  module _ (mac : Bytes → Bytes) (salt_block : ℕ → ℕ → ℕ) where
    unfoldable pub decode_key :
        DecodePlacementCtx
        → Option (StateSnapshot (doubles D))
        → ℕ
        → List D.F
        → D.F
        → Backend D
        → D.F
    unfolding decode_barriers cost_with_isolation default_routing_blocks
    decode_key ctx snapshot prompt_tokens extra pool_pi c =
        cost_with_isolation D mac salt_block (decode_barriers ctx extra c) snapshot
          (default_routing_blocks prompt_tokens) true pool_pi none c

    unfoldable pub select_decode_with_pi :
        DecodePlacementCtx
        → List (Backend D)
        → Option (StateSnapshot (doubles D))
        → ℕ
        → List D.F
        → D.F
        → Option (Backend D)
    unfolding decode_loop decode_key
    select_decode_with_pi ctx candidates snapshot prompt_tokens extra pool_pi =
        chosen (decode_loop (decode_key ctx snapshot prompt_tokens extra pool_pi) none candidates)

    unfoldable pub prefill_key :
        Option (StateSnapshot (doubles D)) → ℕ → D.F → Option IsolationCtx → Backend D → D.F
    unfolding cost_with_isolation default_routing_blocks
    prefill_key snapshot prompt_tokens pool_pi isolation b =
        cost_with_isolation D mac salt_block [] snapshot (default_routing_blocks prompt_tokens)
          false pool_pi isolation b

    unfoldable pub select_prefill_with_identity_pi :
        List (Backend D)
        → Option (StateSnapshot (doubles D))
        → ℕ
        → D.F
        → Option IsolationCtx
        → Option (Backend D)
    unfolding select_with_barriers_pi min_by prefill_key
    select_prefill_with_identity_pi candidates none prompt_tokens pool_pi isolation =
        select_with_barriers_pi candidates [] pool_pi true
    select_prefill_with_identity_pi candidates (some snap) prompt_tokens pool_pi isolation =
        min_by (by_key (prefill_key (some snap) prompt_tokens pool_pi isolation)) candidates

    unfoldable pub select_with_warmth_pi :
        List (Backend D)
        → List D.F
        → Option (StateSnapshot (doubles D))
        → List ℕ
        → Bool
        → D.F
        → Option (Backend D)
    unfolding min_by cost_with_isolation
    select_with_warmth_pi candidates extra snapshot blocks decode_pool pool_pi =
        min_by
          (by_key
            (cost_with_isolation D mac salt_block extra snapshot blocks decode_pool pool_pi none))
          candidates

    pub select_with_warmth :
        List (Backend D)
        → List D.F
        → Option (StateSnapshot (doubles D))
        → List ℕ
        → Bool
        → Option (Backend D)
    unfolding select_with_warmth_pi
    select_with_warmth candidates extra snapshot blocks decode_pool =
        select_with_warmth_pi candidates extra snapshot blocks decode_pool (D.literal 1 1)
