-- ===== src/Router/Backend/Minimum.antt =====
-- A choice of backend is the first of minimal cost, and there is one wherever there is a candidate.
use demiurge.Base.{
  ℕ, ◌≡◌, refl, ap, Bool, true, false, not, Option, none, some, List, [], ◌∷◌, Bytes, Bool-cases,
  inl, inr, arith,
}
use demiurge.Base.Choose.{best, best-FirstMin, IsSelection, IsOrder, min_by-IsSelection}
use demiurge.Base.F64.{F64, IsTotalOrder, IsFiniteOrder}
use demiurge.Cost.Factors.{max_value, cost_from_ln}
use demiurge.Cost.Compose.{service_cost-is_finite}
use demiurge.Dataplane.Rcu.{pool_core_scale}
use demiurge.State.Snapshot.{StateSnapshot}
use demiurge.State.Warmth.{default_routing_blocks}
use demiurge.State.Pool.{IsolationCtx, doubles}
use demiurge.Router.Backend.{
  Backend, effective_base_seconds, cost_with_barriers, cost_with_discount, cost_with_isolation,
  warmth_discount_for,
}
use demiurge.Router.Backend.Select.{
  by_key, barriers_key, select_with_barriers_pi, DecodePlacementCtx, chosen, decode_loop,
  decode_key, decode_barriers, select_decode_with_pi, prefill_key, select_prefill_with_identity_pi,
}

false_of : {b : Bool} → not b ≡ true → b ≡ false
false_of {b = true} h = cc
false_of {b = false} h = refl

module _ (D : F64) where
  by_key-IsOrder : IsTotalOrder D → (key : Backend D → D.F) → IsOrder (by_key D key)
  by_key-IsOrder order key = record {
    either = λ a b. order.either (key a) (key b);
    trans = λ a b c. order.trans (key a) (key b) (key c);
  }

  -- A placement by barriers only, with or without the memory barrier, is the first backend of least key.
  pub select_with_barriers_pi-IsSelection :
      IsTotalOrder D
      → (candidates : List (Backend D)) (extra : List D.F) (pool_pi : D.F) (prefill : Bool)
      → IsSelection
          (by_key D (barriers_key D extra pool_pi prefill))
          candidates
          (select_with_barriers_pi D candidates extra pool_pi prefill)
  unfolding select_with_barriers_pi
  select_with_barriers_pi-IsSelection order candidates extra pool_pi prefill =
      min_by-IsSelection (by_key D (barriers_key D extra pool_pi prefill))
        (by_key-IsOrder order (barriers_key D extra pool_pi prefill)) candidates

  cost_from_ln-is_finite :
      (ln : D.F) → D.is_finite (max_value D) ≡ true → D.is_finite (cost_from_ln D ln) ≡ true
  unfolding cost_from_ln
  cost_from_ln-is_finite ln h = ground (arith, h)

  cost_with_barriers-is_finite :
      (extra : List D.F) (pool_pi : D.F) (prefill : Bool) (b : Backend D)
      → D.is_finite (max_value D) ≡ true
      → D.is_finite (cost_with_barriers D extra pool_pi prefill b) ≡ true
  unfolding cost_with_barriers
  cost_with_barriers-is_finite [] pool_pi prefill b h = cost_from_ln-is_finite _ h
  cost_with_barriers-is_finite (x ∷ extra) pool_pi prefill b h =
      service_cost-is_finite D (pool_core_scale D (effective_base_seconds D b) pool_pi prefill)
        b.inflight (x ∷ extra) [] h

  module _ (mac : Bytes → Bytes) (salt_block : ℕ → ℕ → ℕ) where
    cost_with_discount-is_finite :
        (extra : List D.F) (decode_pool : Bool) (pool_pi : D.F) (b : Backend D) (d : Option D.F)
        → D.is_finite (max_value D) ≡ true
        → D.is_finite (cost_with_discount D mac salt_block extra decode_pool pool_pi b d) ≡ true
    unfolding cost_with_discount
    cost_with_discount-is_finite extra decode_pool pool_pi b none h =
        cost_with_barriers-is_finite extra pool_pi (not decode_pool) b h
    cost_with_discount-is_finite extra decode_pool pool_pi b (some d) h =
        service_cost-is_finite D
          (pool_core_scale D (effective_base_seconds D b) pool_pi (not decode_pool)) b.inflight
          extra (d ∷ []) h

    cost_with_isolation-is_finite :
        (extra : List D.F) (snapshot : Option (StateSnapshot (doubles D))) (blocks : List ℕ)
        (decode_pool : Bool) (pool_pi : D.F) (isolation : Option IsolationCtx) (b : Backend D)
        → D.is_finite (max_value D) ≡ true
        → D.is_finite (
            cost_with_isolation D mac salt_block extra snapshot blocks decode_pool pool_pi isolation
              b)
          ≡ true
    unfolding cost_with_isolation
    cost_with_isolation-is_finite extra snapshot blocks decode_pool pool_pi isolation b h =
        cost_with_discount-is_finite extra decode_pool pool_pi b
          (warmth_discount_for D mac salt_block snapshot decode_pool b.label blocks isolation) h

    decode_key-is_finite :
        (ctx : DecodePlacementCtx) (snapshot : Option (StateSnapshot (doubles D)))
        (prompt_tokens : ℕ) (extra : List D.F) (pool_pi : D.F) (b : Backend D)
        → D.is_finite (max_value D) ≡ true
        → D.is_finite (decode_key D mac salt_block ctx snapshot prompt_tokens extra pool_pi b)
          ≡ true
    unfolding decode_key
    decode_key-is_finite ctx snapshot prompt_tokens extra pool_pi b h =
        cost_with_isolation-is_finite (decode_barriers D ctx extra b) snapshot
          (default_routing_blocks prompt_tokens) true pool_pi none b h

  -- The test of the loop for decode, as an order: a later candidate is taken only where it is less.
  abbrev pub not_above : (Backend D → D.F) → Backend D → Backend D → Bool
  not_above key a b = not (D.lt (key b) (key a))

  not_above-IsOrder :
      IsFiniteOrder D
      → (key : Backend D → D.F) → ((b : Backend D) → D.is_finite (key b) ≡ true)
      → IsOrder (not_above key)
  not_above-IsOrder order key finite = record {
    either = λ a b. elim (Bool-cases (D.lt (key b) (key a))) [
      | inl above ↦ inr (rw (order.asym (key b) (key a) (finite b) (finite a) above) refl)
      | inr below ↦ inl (rw (below) refl)
    ];
    trans = λ a b c p q.
        rw
          (order.weak (key a) (key b) (key c) (finite a) (finite b) (finite c) (false_of p)
            (false_of q))
          refl;
  }

  -- The loop keeps the key of the backend that it keeps.
  decode_loop_lem :
      (key : Backend D → D.F) (b : Backend D) (cs : List (Backend D))
      → decode_loop D key (some (key b, b)) cs
        ≡ some (key (best (not_above key) b cs), best (not_above key) b cs)
  unfolding decode_loop best
  decode_loop_lem key b [] = refl
  decode_loop_lem key b (c ∷ cs) = elim (Bool-cases (D.lt (key c) (key b))) [
    | inl less ↦ rw (less) (decode_loop_lem key c cs)
    | inr more ↦ rw (more) (decode_loop_lem key b cs)
  ]

  module _ (mac : Bytes → Bytes) (salt_block : ℕ → ℕ → ℕ) where
    -- What prefill backends are compared by, with a snapshot and without.
    pub identity_key :
        Option (StateSnapshot (doubles D)) → ℕ → D.F → Option IsolationCtx → Backend D → D.F
    identity_key none prompt_tokens pool_pi isolation b = barriers_key D [] pool_pi true b
    identity_key (some snap) prompt_tokens pool_pi isolation b =
        prefill_key D mac salt_block (some snap) prompt_tokens pool_pi isolation b

    -- The decode backend is the first of minimal cost among the candidates, the memory barrier and the
    -- transfer from the prefill backend counted in; there is none just where there is no candidate. Given
    -- that `<` is a strict weak order of the finite doubles, of which the largest is one.
    pub select_decode_with_pi-IsSelection :
        IsFiniteOrder D
        → (ctx : DecodePlacementCtx) (candidates : List (Backend D))
          (snapshot : Option (StateSnapshot (doubles D))) (prompt_tokens : ℕ) (extra : List D.F)
          (pool_pi : D.F)
        → IsSelection
            (not_above (decode_key D mac salt_block ctx snapshot prompt_tokens extra pool_pi))
            candidates
            (select_decode_with_pi D mac salt_block ctx candidates snapshot prompt_tokens extra
              pool_pi)
    unfolding select_decode_with_pi decode_loop
    select_decode_with_pi-IsSelection order ctx [] snapshot prompt_tokens extra pool_pi = refl
    select_decode_with_pi-IsSelection order ctx (c ∷ cs) snapshot prompt_tokens extra pool_pi =
        let key = decode_key D mac salt_block ctx snapshot prompt_tokens extra pool_pi in
        (
          best (not_above key) c cs,
          ap (chosen D) (decode_loop_lem key c cs),
          best-FirstMin (not_above key)
              (not_above-IsOrder order key (λ b.
                decode_key-is_finite mac salt_block ctx snapshot prompt_tokens extra pool_pi b
                  order.max_finite))
              c cs,
        )

    -- The prefill backend is the first of minimal cost among the candidates, the discount for its warmth
    -- under the request's own cache domain counted in; without a snapshot it is the first of the least
    -- core and queue; there is none just where there is no candidate. Given that `total_cmp` is a total
    -- order.
    pub select_prefill_with_identity_pi-IsSelection :
        IsTotalOrder D
        → (candidates : List (Backend D)) (snapshot : Option (StateSnapshot (doubles D)))
          (prompt_tokens : ℕ) (pool_pi : D.F) (isolation : Option IsolationCtx)
        → IsSelection
            (by_key D (identity_key snapshot prompt_tokens pool_pi isolation))
            candidates
            (select_prefill_with_identity_pi D mac salt_block candidates snapshot prompt_tokens
              pool_pi isolation)
    unfolding select_prefill_with_identity_pi identity_key
    select_prefill_with_identity_pi-IsSelection order candidates none prompt_tokens pool_pi
          isolation =
        select_with_barriers_pi-IsSelection order candidates [] pool_pi true
    select_prefill_with_identity_pi-IsSelection order candidates (some snap) prompt_tokens pool_pi
          isolation =
        min_by-IsSelection
          (by_key D (prefill_key D mac salt_block (some snap) prompt_tokens pool_pi isolation))
          (by_key-IsOrder order
            (prefill_key D mac salt_block (some snap) prompt_tokens pool_pi isolation))
          candidates
