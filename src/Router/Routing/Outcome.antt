-- ===== src/Router/Routing/Outcome.antt =====
-- What a route answers, in every case, and what it leaves of the router.
use demiurge.Base.{
  ℕ, ◌≡◌, refl, ◌⊎◌, inl, inr, Bool, true, false, Option, none, some, List, [], ◌∷◌, leb,
  if◌then◌else◌, ◌&&◌, All, string_key, Bytes, Bool-cases, wrapping_add,
}
use demiurge.Base.Choose.{In, All-In, Chosen, min_by-Chosen}
use demiurge.Base.F64.{F64}
use demiurge.Base.Maps.{lookup}
use demiurge.Cost.Params.{routing_short_context_tokens}
use demiurge.Dataplane.Rcu.{read_pi}
use demiurge.Http.{is_decode_only, estimate_prompt_tokens}
use demiurge.State.Warmth.{default_routing_blocks}
use demiurge.State.Snapshot.{StateSnapshot}
use demiurge.State.Pool.{IsolationCtx, doubles, pool_hit_strength}
use demiurge.Router.{no_backend}
use demiurge.Router.Backend.{Backend}
use demiurge.Router.Backend.Select.{
  select_with_barriers_pi, select_prefill_with_identity_pi, by_key,
}
use demiurge.Router.Plane.{Router, routing_snapshot, Phase, prefill_phase, decode_phase}
use demiurge.Router.Plane.Counters.{
  pool, bump_route_counters, note_fastpath_misroute, is_near_threshold,
}
use demiurge.Router.Plane.Pick.{pick_with_phi, pick, pick_colocated, colocated_phase}
use demiurge.Router.Routing.{
  Surroundings, colocated, disaggregated, decode_only, Routed, ok, err, RouteStep, settle_path,
  disaggregate, route_short, route_impl, override_loop, consider, after_known, target_of,
  warmth_override_target,
}

module _ (D : F64) where
  -- An error says that a pool has no backend; a path leads to a backend of the pool that serves it.
  abbrev pub Placed : Router D → Routed D → Type 0
  Placed r (err e) = (e ≡ no_backend) × ((r.prefill ≡ []) ⊎ (r.decode ≡ []))
  Placed r (ok (colocated b)) = In b r.prefill ⊎ In b r.decode
  Placed r (ok (disaggregated b request_id prompt_tokens)) = In b r.prefill
  Placed r (ok (decode_only b)) = In b r.decode

  pick-Chosen : (phase : Phase) (r : Router D) → Chosen (pool D phase r) (pick D phase r)
  unfolding pick pick_with_phi select_with_barriers_pi
  pick-Chosen phase r = min_by-Chosen (by_key D _) (pool D phase r)

  -- An error changes nothing; a path is counted once, on its own counter, and leaves the reservations.
  abbrev pub Counted : Router D → Router D → Routed D → Type 0
  Counted r after (err e) = after ≡ r
  Counted r after (ok (colocated b)) =
      (after.colocated_routes ≡ wrapping_add r.colocated_routes 1)
      × (after.disagg_routes ≡ r.disagg_routes)
      × (after.ledger ≡ r.ledger)
  Counted r after (ok (disaggregated b request_id prompt_tokens)) =
      (after.colocated_routes ≡ r.colocated_routes)
      × (after.disagg_routes ≡ wrapping_add r.disagg_routes 1)
      × (after.ledger ≡ r.ledger)
  Counted r after (ok (decode_only b)) =
      (after.colocated_routes ≡ r.colocated_routes)
      × (after.disagg_routes ≡ wrapping_add r.disagg_routes 1)
      × (after.ledger ≡ r.ledger)

  abbrev pub Sound : Router D → RouteStep D → Type 0
  Sound r step = Placed r step.answer × Counted r step.router step.answer

  settle_decode :
      (next_id : ℕ) (o : Option (Backend D)) (r : Router D)
      → Chosen r.decode o
      → Sound r (settle_path D decode_only false next_id o r)
  unfolding settle_path bump_route_counters
  settle_decode next_id none r h = ((refl, inr h), refl)
  settle_decode next_id (some b) r h = (h, (refl, refl, refl))

  settle_colocated :
      (next_id : ℕ) (phase : Phase) (o : Option (Backend D)) (r : Router D)
      → Chosen (pool D phase r) o
      → Sound r (settle_path D colocated true next_id o r)
  unfolding settle_path bump_route_counters pool
  settle_colocated next_id prefill_phase none r h = ((refl, inl h), refl)
  settle_colocated next_id decode_phase none r h = ((refl, inr h), refl)
  settle_colocated next_id prefill_phase (some b) r h = (inl h, (refl, refl, refl))
  settle_colocated next_id decode_phase (some b) r h = (inr h, (refl, refl, refl))

  -- The telemetry of misroutes is apart from the counters.
  misroute_apart :
      (free : Bool) (prompt_tokens : ℕ) (r : Router D)
      → let after = note_fastpath_misroute D free prompt_tokens r in
        (after.colocated_routes ≡ r.colocated_routes)
        × (after.disagg_routes ≡ r.disagg_routes)
        × (after.ledger ≡ r.ledger)
  unfolding note_fastpath_misroute
  misroute_apart free prompt_tokens r =
      elim (Bool-cases (is_near_threshold D prompt_tokens && free)) [
        | inl e ↦ rw (e) (refl, refl, refl)
        | inr e ↦ rw (e) (refl, refl, refl)
      ]

  disaggregate-Sound :
      (s : Surroundings) (prompt_tokens : ℕ) (o : Option (Backend D)) (r : Router D)
      → Chosen r.prefill o
      → Sound r (disaggregate D s prompt_tokens o r)
  unfolding disaggregate bump_route_counters
  disaggregate-Sound s prompt_tokens none r h = ((refl, inl h), refl)
  disaggregate-Sound s prompt_tokens (some b) r h =
      (h, misroute_apart s.lock_free prompt_tokens (bump_route_counters D false r))

  module _ (mac : Bytes → Bytes) (salt_block : ℕ → ℕ → ℕ) where
    prefill-Chosen :
        (candidates : List (Backend D)) (snapshot : Option (StateSnapshot (doubles D)))
        (prompt_tokens : ℕ) (pool_pi : D.F) (isolation : Option IsolationCtx)
        → Chosen candidates (
            select_prefill_with_identity_pi D mac salt_block candidates snapshot prompt_tokens
              pool_pi isolation)
    unfolding select_prefill_with_identity_pi select_with_barriers_pi
    prefill-Chosen candidates none prompt_tokens pool_pi isolation =
        min_by-Chosen (by_key D _) candidates
    prefill-Chosen candidates (some snap) prompt_tokens pool_pi isolation =
        min_by-Chosen (by_key D _) candidates

    -- The backend found so far, if any, is one of the pool.
    abbrev Within : List (Backend D) → Option (Backend D × D.F) → Type 0
    Within members none = Unit
    Within members (some (b, s)) = In b members

    either-Within :
        (members : List (Backend D)) (test : Bool) (x y : Option (Backend D × D.F))
        → Within members x
        → Within members y
        → Within members (if test then x else y)
    either-Within members true x y h k = h
    either-Within members false x y h k = k

    consider-Within :
        (members : List (Backend D)) (b : Backend D) (strength : D.F)
        (best : Option (Backend D × D.F))
        → In b members
        → Within members best
        → Within members (consider D b strength best)
    unfolding consider
    consider-Within members b strength none h k =
        either-Within members (D.lt strength (D.literal 5404319552844595 55)) none
          (some (b, strength)) tt h
    consider-Within members b strength (some (best, s)) h k =
        either-Within members (D.lt strength (D.literal 5404319552844595 55)) (some (best, s))
          (if D.lt s strength then some (b, strength) else some (best, s)) k
          (either-Within members (D.lt s strength) (some (b, strength)) (some (best, s)) h k)

    after_known-Within :
        {K : Type 0} (members : List (Backend D)) (known : Option K)
        (rest : Option (Backend D × D.F))
        → Within members rest
        → Within members (after_known D known rest)
    unfolding after_known
    after_known-Within members none rest h = tt
    after_known-Within members (some b) rest h = h

    override_loop-Within :
        (snap : StateSnapshot (doubles D)) (blocks : List ℕ) (isolation : Option IsolationCtx)
        (members : List (Backend D)) (best : Option (Backend D × D.F)) (bs : List (Backend D))
        → All (λ b. In b members) bs
        → Within members best
        → Within members (override_loop D mac salt_block snap blocks isolation best bs)
    unfolding override_loop
    override_loop-Within snap blocks isolation members best [] h k = k
    override_loop-Within snap blocks isolation members best (b ∷ bs) h k =
        let strength = pool_hit_strength D mac salt_block false b.label blocks isolation snap in
        let next = consider D b strength best in
        after_known-Within members (lookup b.label snap.prefill)
          (override_loop D mac salt_block snap blocks isolation next bs)
          (override_loop-Within snap blocks isolation members (consider D b strength best) bs h.1
            (consider-Within members b strength best h.0 k))

    -- The target of the override, if there is one, is of the pool.
    abbrev Target : List (Backend D) → Option (Backend D) → Type 0
    Target members none = Unit
    Target members (some b) = In b members

    target_of-Target :
        (members : List (Backend D)) (found : Option (Backend D × D.F))
        → Within members found
        → Target members (target_of D found)
    target_of-Target members none h = tt
    target_of-Target members (some (b, s)) h = h

    warmth_override-Target :
        (members : List (Backend D)) (prompt_tokens : ℕ) (isolation : Option IsolationCtx)
        (snapshot : Option (StateSnapshot (doubles D)))
        → Target members
            (warmth_override_target D mac salt_block members prompt_tokens isolation snapshot)
    unfolding warmth_override_target
    warmth_override-Target members prompt_tokens isolation none = tt
    warmth_override-Target members prompt_tokens isolation (some snap) =
        target_of-Target members _ (
          override_loop-Within snap (default_routing_blocks prompt_tokens) isolation members none
            members (All-In members) tt)

    route_short-Sound :
        (s : Surroundings) (prompt_tokens : ℕ) (o : Option (Backend D)) (r : Router D)
        → Target r.prefill o
        → Sound r (route_short D mac salt_block s prompt_tokens o r)
    unfolding route_short pick_colocated
    route_short-Sound s prompt_tokens (some b) r h = disaggregate-Sound s prompt_tokens (some b) r h
    route_short-Sound s prompt_tokens none r h =
        settle_colocated s.next_id (colocated_phase D s.colocated_value)
          (pick_colocated D s.colocated_value r) r
          (pick-Chosen (colocated_phase D s.colocated_value) r)

    either-Sound :
        (r : Router D) (test : Bool) (x y : RouteStep D)
        → Sound r x
        → Sound r y
        → Sound r (if test then x else y)
    either-Sound r true x y h k = h
    either-Sound r false x y h k = k

    pub route_impl-Sound :
        (s : Surroundings) (head : Bytes) (isolation : Option IsolationCtx) (r : Router D)
        → Sound r (route_impl D mac salt_block s head isolation r)
    unfolding route_impl
    route_impl-Sound s head isolation r =
        let prompt_tokens = estimate_prompt_tokens head in
        let snap = routing_snapshot D r in
        let found =
          warmth_override_target D mac salt_block r.prefill prompt_tokens isolation snap in
        let selected =
          select_prefill_with_identity_pi D mac salt_block r.prefill snap prompt_tokens
            (read_pi D r.dataplane) isolation in
        let short = route_short D mac salt_block s prompt_tokens found r in
        let long = disaggregate D s prompt_tokens selected r in
        let is_short = leb prompt_tokens routing_short_context_tokens in
        either-Sound r (is_decode_only head)
          (settle_path D decode_only false s.next_id (pick D decode_phase r) r)
          (if is_short then short else long)
          (settle_decode s.next_id (pick D decode_phase r) r (pick-Chosen decode_phase r))
          (either-Sound r is_short short long
            (route_short-Sound s prompt_tokens found r
              (warmth_override-Target r.prefill prompt_tokens isolation snap))
            (disaggregate-Sound s prompt_tokens selected r
              (prefill-Chosen r.prefill snap prompt_tokens (read_pi D r.dataplane) isolation)))
