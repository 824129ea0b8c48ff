-- ===== src/Control/Pairing/Oracle.antt =====
-- The oracle's cost is the least over all pairs, and so is at most that of the greedy pair.
use demiurge.Base.{ℕ, ◌≡◌, sym, subst, true, some, List, [], ◌∷◌, All}
use demiurge.Base.Choose.{min_by-All}
use demiurge.Base.F64.{F64, IsMinimum}
use demiurge.Control.Pairing.{
  PairingTarget, Snap, joint_ln, greedy_pair, greedy_pair-choices, select_prefill_target,
  select_decode_target, oracle_row, oracle_cost,
}
use demiurge.State.Warmth.{default_routing_blocks}

module _ (D : F64) (laws : IsMinimum D) where
  abbrev Finite : D.F → Type 0
  Finite x = D.is_finite x ≡ true

  abbrev Below : D.F → D.F → Type 0
  Below x y = D.le x y ≡ true

  module _ {T : Type 0} (target : PairingTarget D T) (joint : T → T → D.F) where
    -- The rest of a row keeps below what it starts from, and goes below each of its pairs.
    row_lem :
        (p : T) (ds : List T) (least : D.F)
        → Finite least
        → All (λ d. Finite (joint p d)) ds
        → Finite (oracle_row D target joint p ds least)
          × Below (oracle_row D target joint p ds least) least
          × All (λ d. Below (oracle_row D target joint p ds least) (joint p d)) ds
    unfolding oracle_row
    row_lem p [] least h hs = (h, laws.le_refl least h, tt)
    row_lem p (d ∷ ds) least h hs =
        let m = laws.min_of_finite least (joint p d) h hs.0 in
        let r = row_lem p ds (D.min_of least (joint p d)) m.0 hs.1 in
        (
          r.0,
          laws.le_trans _ _ _ r.0 m.0 h r.1 m.1,
          (laws.le_trans _ _ _ r.0 m.0 hs.0 r.1 m.2, r.2),
        )

    lower :
        (p : T) (ds : List T) (a b : D.F)
        → Finite a
        → Finite b
        → Below a b
        → All (λ d. Finite (joint p d)) ds
        → All (λ d. Below b (joint p d)) ds
        → All (λ d. Below a (joint p d)) ds
    lower p [] a b ha hb le hs h = tt
    lower p (d ∷ ds) a b ha hb le hs h =
        (laws.le_trans _ _ _ ha hb hs.0 le h.0, lower p ds a b ha hb le hs.1 h.1)

    -- All further rows do so too.
    rows_lem :
        (ps ds : List T) (least : D.F)
        → Finite least
        → All (λ p. All (λ d. Finite (joint p d)) ds) ps
        → Finite (oracle_cost D target joint ps ds least)
          × Below (oracle_cost D target joint ps ds least) least
          × All (λ p. All (λ d. Below (oracle_cost D target joint ps ds least) (joint p d)) ds) ps
    unfolding oracle_cost
    rows_lem [] ds least h hs = (h, laws.le_refl least h, tt)
    rows_lem (p ∷ ps) ds least h hs =
        let r = row_lem p ds least h hs.0 in
        let rest = rows_lem ps ds (oracle_row D target joint p ds least) r.0 hs.1 in
        (
          rest.0,
          laws.le_trans _ _ _ rest.0 r.0 h rest.1 r.1,
          (lower p ds _ _ rest.0 r.0 rest.1 hs.0 r.2, rest.2),
        )

    no_pairs : (P : T → T → Type 0) (ps : List T) → All (λ p. All (P p) []) ps
    no_pairs P [] = tt
    no_pairs P (p ∷ ps) = (tt, no_pairs P ps)

    oracle_cost_lem :
        (ps ds : List T)
        → All (λ p. All (λ d. Finite (joint p d)) ds) ps
        → All
            (λ p. All (λ d. Below (oracle_cost D target joint ps ds D.infinity) (joint p d)) ds)
            ps
    unfolding oracle_cost oracle_row
    oracle_cost_lem [] ds hs = tt
    oracle_cost_lem (p ∷ ps) [] hs =
        no_pairs (λ q d. Below (oracle_cost D target joint (p ∷ ps) [] D.infinity) (joint q d))
          (p ∷ ps)
    oracle_cost_lem (p ∷ ps) (d ∷ ds) hs =
        let r = row_lem p ds (joint p d) hs.0.0 hs.0.1 in
        let rest = rows_lem ps (d ∷ ds) (oracle_row D target joint p ds (joint p d)) r.0 hs.1 in
        subst
          (λ x.
            All
              (λ q.
                All
                  (λ e.
                    Below
                      (oracle_cost D target joint ps (d ∷ ds) (oracle_row D target joint p ds x))
                      (joint q e))
                  (d ∷ ds))
              (p ∷ ps))
          (sym (laws.min_of_infinity (joint p d) hs.0.0))
          (
            (
              laws.le_trans _ _ _ rest.0 r.0 hs.0.0 rest.1 r.1,
              lower p ds _ _ rest.0 r.0 rest.1 hs.0.1 r.2,
            ),
            rest.2,
          )

  -- The oracle that the regret is measured against costs no more than the pair that the greedy choice
  -- makes, over any two pools whose pairs all have a finite cost, and given the laws of `min` and `<=` on
  -- finite doubles.
  pub greedy_pair-oracle_cost :
      {T : Type 0}
      → (target : PairingTarget D T) (ps ds : List T) (snapshot : Snap D) (prompt_tokens : ℕ)
        (penalty : D.F) (pf dc : T)
      → All
          (λ p.
            All
              (λ d.
                Finite
                  (joint_ln D target snapshot (default_routing_blocks prompt_tokens) penalty p d))
              ds)
          ps
      → greedy_pair D target ps ds snapshot prompt_tokens penalty ≡ some (pf, dc)
      → Below
          (oracle_cost D target
            (joint_ln D target snapshot (default_routing_blocks prompt_tokens) penalty)
            ps
            ds
            D.infinity)
          (joint_ln D target snapshot (default_routing_blocks prompt_tokens) penalty pf dc)
  unfolding select_prefill_target select_decode_target
  greedy_pair-oracle_cost target ps ds snapshot prompt_tokens penalty pf dc finite e =
      let blocks = default_routing_blocks prompt_tokens in
      let joint = joint_ln D target snapshot blocks penalty in
      let chosen = greedy_pair-choices D target ps ds snapshot prompt_tokens penalty pf dc e in
      let prefill_key = target.prefill_ln snapshot blocks in
      let decode_key = target.decode_ln snapshot blocks (target.label_of pf) penalty [] in
      min_by-All (λ a b. D.total_le (decode_key a) (decode_key b))
        (λ d. Below (oracle_cost D target joint ps ds D.infinity) (joint pf d)) dc ds chosen.1
        (min_by-All (λ a b. D.total_le (prefill_key a) (prefill_key b))
          (λ p. All (λ d. Below (oracle_cost D target joint ps ds D.infinity) (joint p d)) ds) pf ps
          chosen.0 (oracle_cost_lem target joint ps ds finite))
