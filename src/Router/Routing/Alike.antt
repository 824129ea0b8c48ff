-- ===== src/Router/Routing/Alike.antt =====
-- Two snapshots that look alike to a request that has an identity, and the route that it takes by either.
use demiurge.Base.{
  ℕ, ◌≡◌, refl, ap, ◌∙◌, Bool, true, false, Option, none, some, List, [], ◌∷◌, String, string_key,
  leb, if◌then◌else◌, Bytes,
}
use demiurge.Base.Choose.{min_by}
use demiurge.Base.F64.{F64}
use demiurge.Base.Maps.{lookup}
use demiurge.Cost.Params.{routing_short_context_tokens}
use demiurge.Cost.Rdma.{warmth_discount}
use demiurge.Dataplane.Rcu.{read_pi}
use demiurge.Http.{is_decode_only, estimate_prompt_tokens}
use demiurge.State.Warmth.{default_routing_blocks}
use demiurge.State.Snapshot.{StateSnapshot}
use demiurge.State.Pool.{IsolationCtx, doubles, pool_hit_strength}
use demiurge.Router.Backend.{Backend, cost_with_isolation, cost_with_discount, warmth_discount_for}
use demiurge.Router.Backend.Select.{select_prefill_with_identity_pi, prefill_key, by_key}
use demiurge.Router.Plane.{Router, Phase, prefill_phase, decode_phase, routing_snapshot}
use demiurge.Router.Plane.Pick.{pick, pick_with_phi, pick_colocated, colocated_phase}
use demiurge.Router.Plane.Counters.{pool}
use demiurge.Router.Routing.{
  Surroundings, RoutePath, colocated, decode_only, RouteStep, settle_path, disaggregate,
  route_short, route_impl, override_loop, consider, after_known, target_of, warmth_override_target,
}

module _ (D : F64) where
  -- The router with another snapshot in its live plane.
  abbrev pub with_plane : StateSnapshot (doubles D) → Router D → Router D
  with_plane snap r = record r { state_plane = some snap }

module _ (D : F64) (mac : Bytes → Bytes) (salt_block : ℕ → ℕ → ℕ) where
  -- Two snapshots that show a request the same: the same backends, each as warm for its blocks.
  pub record Alike (blocks : List ℕ) (c : IsolationCtx) (x y : StateSnapshot (doubles D))
      : Type 0 where
    pub same_strength :
        (label : String)
        → pool_hit_strength D mac salt_block false label blocks (some c) x
          ≡ pool_hit_strength D mac salt_block false label blocks (some c) y
    pub same_known :
        (label : String) (rest : Option (Backend D × D.F))
        → after_known D (lookup label x.prefill) rest ≡ after_known D (lookup label y.prefill) rest

  module _ (blocks : List ℕ) (c : IsolationCtx) (x y : StateSnapshot (doubles D))
      (alike : Alike blocks c x y) where
    override_loop-alike :
        (best : Option (Backend D × D.F)) (bs : List (Backend D))
        → override_loop D mac salt_block x blocks (some c) best bs
          ≡ override_loop D mac salt_block y blocks (some c) best bs
    unfolding override_loop
    override_loop-alike best [] = refl
    override_loop-alike best (b ∷ bs) =
        let after = λ (f : D.F). consider D b f best in
        ap
          (λ f.
            after_known D (lookup b.label x.prefill)
              (override_loop D mac salt_block x blocks (some c) (after f) bs))
          (alike.same_strength b.label)
        ∙ ap (after_known D (lookup b.label x.prefill)) (
            override_loop-alike
              (after (pool_hit_strength D mac salt_block false b.label blocks (some c) y)) bs)
        ∙ alike.same_known b.label _

    discount-alike :
        (label : String)
        → warmth_discount_for D mac salt_block (some x) false label blocks (some c)
          ≡ warmth_discount_for D mac salt_block (some y) false label blocks (some c)
    unfolding warmth_discount_for
    discount-alike label = ap (warmth_discount D) (alike.same_strength label)

    cost-alike :
        (pool_pi : D.F) (b : Backend D)
        → cost_with_isolation D mac salt_block [] (some x) blocks false pool_pi (some c) b
          ≡ cost_with_isolation D mac salt_block [] (some y) blocks false pool_pi (some c) b
    unfolding cost_with_isolation
    cost-alike pool_pi b =
        ap (cost_with_discount D mac salt_block [] false pool_pi b) (discount-alike b.label)

  settle_path-answer :
      (path : Backend D → RoutePath D) (counts : Bool) (next_id : ℕ) (o : Option (Backend D))
      (q r : Router D)
      → (settle_path D path counts next_id o q).answer
        ≡ (settle_path D path counts next_id o r).answer
  unfolding settle_path
  settle_path-answer path counts next_id none q r = refl
  settle_path-answer path counts next_id (some b) q r = refl

  disaggregate-answer :
      (s : Surroundings) (prompt_tokens : ℕ) (o : Option (Backend D)) (q r : Router D)
      → (disaggregate D s prompt_tokens o q).answer ≡ (disaggregate D s prompt_tokens o r).answer
  unfolding disaggregate
  disaggregate-answer s prompt_tokens none q r = refl
  disaggregate-answer s prompt_tokens (some b) q r = refl

  pick-with_plane :
      (phase : Phase) (x y : StateSnapshot (doubles D)) (r : Router D)
      → pick D phase (with_plane D x r) ≡ pick D phase (with_plane D y r)
  unfolding pick pick_with_phi pool
  pick-with_plane prefill_phase x y r = refl
  pick-with_plane decode_phase x y r = refl

  route_short-answer :
      (s : Surroundings) (prompt_tokens : ℕ) (o : Option (Backend D))
      (x y : StateSnapshot (doubles D)) (r : Router D)
      → (route_short D mac salt_block s prompt_tokens o (with_plane D x r)).answer
        ≡ (route_short D mac salt_block s prompt_tokens o (with_plane D y r)).answer
  unfolding route_short pick_colocated
  route_short-answer s prompt_tokens (some b) x y r =
      disaggregate-answer s prompt_tokens (some b) (with_plane D x r) (with_plane D y r)
  route_short-answer s prompt_tokens none x y r =
      settle_path-answer colocated true s.next_id
        (pick_colocated D s.colocated_value (with_plane D x r)) (with_plane D x r)
        (with_plane D y r)
      ∙ ap (λ o. (settle_path D colocated true s.next_id o (with_plane D y r)).answer)
          (pick-with_plane (colocated_phase D s.colocated_value) x y r)

  answer-if :
      (test : Bool) (a b a' b' : RouteStep D)
      → a.answer ≡ a'.answer
      → b.answer ≡ b'.answer
      → (if test then a else b).answer ≡ (if test then a' else b').answer
  answer-if true a b a' b' h k = h
  answer-if false a b a' b' h k = k

  module _ (s : Surroundings) (head : Bytes) (c : IsolationCtx) (x y : StateSnapshot (doubles D))
      (r : Router D)
      (alike : Alike (default_routing_blocks (estimate_prompt_tokens head)) c x y) where
    short_of : StateSnapshot (doubles D) → RouteStep D
    short_of z =
        route_short D mac salt_block s (estimate_prompt_tokens head)
          (warmth_override_target D mac salt_block r.prefill (estimate_prompt_tokens head) (some c)
            (some z))
          (with_plane D z r)

    long_of : StateSnapshot (doubles D) → RouteStep D
    long_of z =
        disaggregate D s (estimate_prompt_tokens head)
          (select_prefill_with_identity_pi D mac salt_block r.prefill (some z)
            (estimate_prompt_tokens head) (read_pi D r.dataplane) (some c))
          (with_plane D z r)

    decode_of : StateSnapshot (doubles D) → RouteStep D
    decode_of z =
        settle_path D decode_only false s.next_id (pick D decode_phase (with_plane D z r))
          (with_plane D z r)

    short_alike : (short_of x).answer ≡ (short_of y).answer
    unfolding short_of warmth_override_target
    short_alike =
        route_short-answer s (estimate_prompt_tokens head) _ x y r
        ∙ ap
            (λ o.
              (route_short D mac salt_block s (estimate_prompt_tokens head) (target_of D o)
                (with_plane D y r)).answer)
            (override_loop-alike (default_routing_blocks (estimate_prompt_tokens head)) c x y alike
              none r.prefill)

    long_alike : (long_of x).answer ≡ (long_of y).answer
    unfolding long_of select_prefill_with_identity_pi prefill_key
    long_alike =
        disaggregate-answer s (estimate_prompt_tokens head) _ (with_plane D x r) (with_plane D y r)
        ∙ ap
            (λ (key : Backend D → D.F).
              (disaggregate D s (estimate_prompt_tokens head) (min_by (by_key D key) r.prefill)
                (with_plane D y r)).answer)
            (λ i b.
              cost-alike (default_routing_blocks (estimate_prompt_tokens head)) c x y alike
                (read_pi D r.dataplane) b i)

    decode_alike : (decode_of x).answer ≡ (decode_of y).answer
    unfolding decode_of
    decode_alike =
        settle_path-answer decode_only false s.next_id _ (with_plane D x r) (with_plane D y r)
        ∙ ap (λ o. (settle_path D decode_only false s.next_id o (with_plane D y r)).answer)
            (pick-with_plane decode_phase x y r)

    -- A request that two snapshots look alike to is answered alike.
    pub route_impl-alike :
        (route_impl D mac salt_block s head (some c) (with_plane D x r)).answer
        ≡ (route_impl D mac salt_block s head (some c) (with_plane D y r)).answer
    unfolding route_impl routing_snapshot short_of long_of decode_of
    route_impl-alike =
        answer-if (is_decode_only head) (decode_of x) _ (decode_of y) _ decode_alike (
          answer-if (leb (estimate_prompt_tokens head) routing_short_context_tokens) (short_of x)
            (long_of x) (short_of y) (long_of y) short_alike long_alike)
