-- ===== src/Router/Routing.antt =====
-- crates/demiurge-router/src/routing.rs: the classification of a request and the choice of where it goes
-- first. The values of the environment, whether the lock of the control plane is free, and the next
-- number of a request are arguments.
pub mod Outcome
pub mod Alike
pub mod Domains
use demiurge.Base.{
  ℕ, ◌+◌, ◌-◌, Bool, true, false, Option, none, some, List, [], ◌∷◌, String, Map, string_key, ltb,
  leb, if◌then◌else◌, Bytes, wrapping_add,
}
use demiurge.Base.F64.{F64}
use demiurge.Base.Maps.{lookup}
use demiurge.Auth.{SharedPrefixGroupRegistry}
use demiurge.Cost.Params.{routing_short_context_tokens}
use demiurge.Dataplane.Rcu.{read_pi}
use demiurge.Http.{RequestIdentity, is_decode_only, estimate_prompt_tokens}
use demiurge.State.Warmth.{default_routing_blocks}
use demiurge.State.Snapshot.{StateSnapshot}
use demiurge.State.Pool.{IsolationCtx, doubles, pool_hit_strength}
use demiurge.Router.{RouteError, no_backend}
use demiurge.Router.Backend.{Backend}
use demiurge.Router.Backend.Select.{select_prefill_with_identity_pi}
use demiurge.Router.Plane.{Router, decode_phase, routing_snapshot}
use demiurge.Router.Plane.Counters.{bump_route_counters, note_fastpath_misroute}
use demiurge.Router.Plane.Pick.{pick, pick_colocated}
use demiurge.Router.Plane.Tick.{Readings, deferred_control_tick}

-- What a call of `route` reads from outside.
pub record Surroundings : Type 0 where
  pub colocated_value : Option Bytes
  pub lock_free : Bool
  pub next_id : ℕ

module _ (D : F64) where
  pub data RoutePath : Type 0 where
    colocated : Backend D → RoutePath
    disaggregated : Backend D → ℕ → ℕ → RoutePath
    decode_only : Backend D → RoutePath

  pub data Routed : Type 0 where
    ok : RoutePath → Routed
    err : RouteError → Routed

  -- The answer, the router and the next number of a request after it.
  pub record RouteStep : Type 0 where
    pub answer : Routed
    pub router : Router D
    pub next_id : ℕ

  -- A path to the backend that was picked, which is counted; or none, which is not.
  pub settle_path : (Backend D → RoutePath) → Bool → ℕ → Option (Backend D) → Router D → RouteStep
  unfolding bump_route_counters
  settle_path path counts_colocated next_id none r = record {
    answer = err no_backend;
    router = r;
    next_id = next_id;
  }
  settle_path path counts_colocated next_id (some b) r = record {
    answer = ok (path b);
    router = bump_route_counters D counts_colocated r;
    next_id = next_id;
  }

  -- A disaggregated path, with a new number.
  pub disaggregate : Surroundings → ℕ → Option (Backend D) → Router D → RouteStep
  unfolding bump_route_counters note_fastpath_misroute
  disaggregate s prompt_tokens none r = record {
    answer = err no_backend;
    router = r;
    next_id = s.next_id;
  }
  disaggregate s prompt_tokens (some b) r = record {
    answer = ok (disaggregated b s.next_id prompt_tokens);
    router = note_fastpath_misroute D s.lock_free prompt_tokens (bump_route_counters D false r);
    next_id = wrapping_add s.next_id 1;
  }

  -- 0.15
  abbrev warmth_override : D.F
  warmth_override = D.literal 5404319552844595 55

  -- The best backend so far with its strength, after one more.
  pub consider : Backend D → D.F → Option (Backend D × D.F) → Option (Backend D × D.F)
  consider b strength none = if D.lt strength warmth_override then none else some (b, strength)
  consider b strength (some (best, s)) =
      if D.lt strength warmth_override
      then some (best, s)
      else if D.lt s strength
      then some (b, strength)
      else some (best, s)

  -- `snap.prefill.get(&backend.label)?`
  pub after_known {ℓ} :
      {K : Type ℓ} → Option K → Option (Backend D × D.F) → Option (Backend D × D.F)
  after_known none rest = none
  after_known (some known) rest = rest

  abbrev pub target_of : Option (Backend D × D.F) → Option (Backend D)
  target_of none = none
  target_of (some (b, s)) = some b

  module _ (mac : Bytes → Bytes) (salt_block : ℕ → ℕ → ℕ) where
    -- The loop over the prefill pool; a backend that the snapshot lacks ends it with no result.
    unfoldable pub override_loop :
        StateSnapshot (doubles D)
        → List ℕ
        → Option IsolationCtx
        → Option (Backend D × D.F)
        → List (Backend D)
        → Option (Backend D × D.F)
    unfolding lookup pool_hit_strength consider after_known
    override_loop snap blocks isolation best [] = best
    override_loop snap blocks isolation best (b ∷ bs) = after_known (lookup b.label snap.prefill) (
        override_loop snap blocks isolation
          (consider b (pool_hit_strength D mac salt_block false b.label blocks isolation snap) best)
          bs)

    unfoldable pub warmth_override_target :
        List (Backend D)
        → ℕ
        → Option IsolationCtx
        → Option (StateSnapshot (doubles D))
        → Option (Backend D)
    unfolding override_loop default_routing_blocks
    warmth_override_target prefill prompt_tokens isolation none = none
    warmth_override_target prefill prompt_tokens isolation (some snap) =
        target_of (override_loop snap (default_routing_blocks prompt_tokens) isolation none prefill)

    -- A short prompt: the backend that is warm for it, if any; else a single hop.
    pub route_short : Surroundings → ℕ → Option (Backend D) → Router D → RouteStep
    unfolding disaggregate settle_path pick_colocated
    route_short s prompt_tokens (some b) r = disaggregate s prompt_tokens (some b) r
    route_short s prompt_tokens none r =
        settle_path colocated true s.next_id (pick_colocated D s.colocated_value r) r

    unfoldable pub route_impl : Surroundings → Bytes → Option IsolationCtx → Router D → RouteStep
    unfolding is_decode_only estimate_prompt_tokens settle_path pick route_short
        warmth_override_target disaggregate select_prefill_with_identity_pi read_pi routing_snapshot
    route_impl s head isolation r =
        let prompt_tokens = estimate_prompt_tokens head in
        let snap = routing_snapshot D r in
        if is_decode_only head
        then settle_path decode_only false s.next_id (pick D decode_phase r) r
        else if leb prompt_tokens routing_short_context_tokens
        then route_short s prompt_tokens
            (warmth_override_target r.prefill prompt_tokens isolation snap) r
        else disaggregate s prompt_tokens
            (select_prefill_with_identity_pi D mac salt_block r.prefill snap prompt_tokens
              (read_pi D r.dataplane) isolation)
            r

    unfoldable pub schedule_control_tick : Readings → RoutePath → Bytes → Router D → Router D
    unfolding deferred_control_tick estimate_prompt_tokens
    schedule_control_tick t (colocated b) head r =
        deferred_control_tick D mac salt_block t (some (estimate_prompt_tokens head)) false r
    schedule_control_tick t (disaggregated b request_id prompt_tokens) head r =
        deferred_control_tick D mac salt_block t (some prompt_tokens) false r
    schedule_control_tick t (decode_only b) head r =
        deferred_control_tick D mac salt_block t none false r

    unfoldable pub after_route : Readings → Bytes → Routed → RouteStep → RouteStep
    unfolding schedule_control_tick
    after_route t head (ok path) step = record step {
      router = schedule_control_tick t path head step.router;
    }
    after_route t head (err e) step = step

    -- `zip` of the registry and the identity
    unfoldable pub isolation_of :
        Option SharedPrefixGroupRegistry → Option RequestIdentity → Option IsolationCtx
    isolation_of none id = none
    isolation_of (some registry) none = none
    isolation_of (some registry) (some id) = some (record {
      registry = registry;
      tenant = id.tenant;
      group = id.group;
      content_fp = id.content_fp;
    })

    unfoldable pub route_with_identity :
        Surroundings → Readings → Bytes → Option RequestIdentity → Router D → RouteStep
    unfolding route_impl after_route isolation_of
    route_with_identity s t head identity r =
        let step = route_impl s head (isolation_of r.cache_registry identity) r in
        after_route t head step.answer step

    unfoldable pub route : Surroundings → Readings → Bytes → Router D → RouteStep
    unfolding route_impl after_route
    route s t head r = let step = route_impl s head none r in after_route t head step.answer step
