-- ===== src/Router/Routing/Domains.antt =====
-- A request with an identity is routed by the warmth of its own cache domain: what is recorded elsewhere
-- leaves its route as it is.
use demiurge.Base.{
  ℕ, ◌≡◌, ◌≢◌, sym, ap, ◌∙◌, subst, false, Option, some, List, String, String_discrete, Map,
  string_key, if◌then◌else◌, if_pos, if_neg, All, Bytes, saturating_add,
}
use demiurge.Base.F64.{F64}
use demiurge.Base.Maps.{lookup, insert, lookup-insert}
use demiurge.Auth.{CacheDomainKey, salt, resolve_domain_key}
use demiurge.Http.{estimate_prompt_tokens}
use demiurge.State.Warmth.{WarmthMap, default_routing_blocks, insert_salted, insert_all}
use demiurge.State.Warmth.Isolation.{
  gated_hit_strength-insert_salted, gated_hit_strength-insert_all,
}
use demiurge.State.Snapshot.{StateSnapshot, BackendSnapshot}
use demiurge.State.Pool.{
  IsolationCtx, doubles, backend_hits, found_strength, pool_hit_strength, strength,
}
use demiurge.Router.Backend.{Backend}
use demiurge.Router.Plane.{
  Router, prefill_phase, is_known, record_request_warmth, record_warmth, record_warmth_in,
  warm_found,
}
use demiurge.Router.Routing.{Surroundings, route_impl, after_known}
use demiurge.Router.Routing.Alike.{Alike, with_plane, route_impl-alike}

module _ (D : F64) where
  -- The snapshot with another generation and other warmth for a backend for prefill.
  abbrev pub with_warmth :
      ℕ
      → String
      → BackendSnapshot (doubles D)
      → WarmthMap
      → StateSnapshot (doubles D)
      → StateSnapshot (doubles D)
  with_warmth generation label b w snap = record snap {
    generation = generation;
    prefill = insert label (record b { warmth = w }) snap.prefill;
  }

module _ (D : F64) (mac : Bytes → Bytes) (salt_block : ℕ → ℕ → ℕ) where
  module _ (generation : ℕ) (blocks : List ℕ) (c : IsolationCtx) (label : String)
      (b : BackendSnapshot (doubles D)) (w : WarmthMap) (snap : StateSnapshot (doubles D))
      (known : lookup label snap.prefill ≡ some b)
      (same_hits : backend_hits D mac salt_block w blocks (some c)
        ≡ backend_hits D mac salt_block b.warmth blocks (some c)) where
    there_known :
        (j : String)
        → j ≢ label
        → lookup j (with_warmth D generation label b w snap).prefill ≡ lookup j snap.prefill
    there_known j n =
        lookup-insert j label (record b { warmth = w }) snap.prefill
        ∙ if_neg (String_discrete j label) n _ _

    here_known :
        (j : String)
        → j ≡ label
        → lookup j (with_warmth D generation label b w snap).prefill
          ≡ some (record b { warmth = w })
    here_known j e =
        lookup-insert j label (record b { warmth = w }) snap.prefill
        ∙ if_pos (String_discrete j label) e _ _

    before_known : (j : String) → j ≡ label → lookup j snap.prefill ≡ some b
    before_known j e = subst (λ l. lookup l snap.prefill ≡ some b) (sym e) known

    strength_at :
        (j : String)
        → Dec (j ≡ label)
        → pool_hit_strength D mac salt_block false j blocks
            (some c)
            (with_warmth D generation label b w snap)
          ≡ pool_hit_strength D mac salt_block false j blocks (some c) snap
    unfolding pool_hit_strength found_strength
    strength_at j (yes e) =
        ap (found_strength D mac salt_block blocks (some c)) (here_known j e)
        ∙ ap (strength D mac salt_block blocks) same_hits
        ∙ sym (ap (found_strength D mac salt_block blocks (some c)) (before_known j e))
    strength_at j (no n) = ap (found_strength D mac salt_block blocks (some c)) (there_known j n)

    known_at :
        (j : String) (rest : Option (Backend D × D.F))
        → Dec (j ≡ label)
        → after_known D (lookup j (with_warmth D generation label b w snap).prefill) rest
          ≡ after_known D (lookup j snap.prefill) rest
    unfolding after_known
    known_at j rest (yes e) =
        ap (λ k. after_known D k rest) (here_known j e)
        ∙ sym (ap (λ k. after_known D k rest) (before_known j e))
    known_at j rest (no n) = ap (λ k. after_known D k rest) (there_known j n)

    with_warmth-Alike :
        Alike D mac salt_block blocks c (with_warmth D generation label b w snap) snap
    with_warmth-Alike = record {
      same_strength = λ j. strength_at j (String_discrete j label);
      same_known = λ j rest. known_at j rest (String_discrete j label);
    }

  -- A block that a prefill backend of the snapshot records under a cache domain changes nothing of how a
  -- request with an identity is routed, where no block of the request, salted for its own domain, collides
  -- with it.
  pub route_impl-insert_salted :
      (s : Surroundings) (head : Bytes) (c : IsolationCtx) (r : Router D)
      (snap : StateSnapshot (doubles D)) (label : String) (b : BackendSnapshot (doubles D))
      (block : ℕ) (key : CacheDomainKey)
      → lookup label snap.prefill ≡ some b
      → All
          (λ j.
            salt_block j (salt mac (resolve_domain_key c.tenant c.group c.content_fp c.registry))
            ≢ salt_block block (salt mac key))
          (default_routing_blocks (estimate_prompt_tokens head))
      → (route_impl D mac salt_block s head (some c) (
          with_plane D
            (with_warmth D snap.generation label b
              (insert_salted mac salt_block block key b.warmth).1
              snap)
            r)).answer
        ≡ (route_impl D mac salt_block s head (some c) (with_plane D snap r)).answer
  unfolding backend_hits
  route_impl-insert_salted s head c r snap label b block key known apart =
      route_impl-alike D mac salt_block s head c
        (with_warmth D snap.generation label b (insert_salted mac salt_block block key b.warmth).1
          snap)
        snap r
        (with_warmth-Alike snap.generation (default_routing_blocks (estimate_prompt_tokens head)) c
          label b (insert_salted mac salt_block block key b.warmth).1 snap known
          (gated_hit_strength-insert_salted mac salt_block b.warmth c.registry c.tenant c.group
            c.content_fp (default_routing_blocks (estimate_prompt_tokens head)) block key apart))

  record_warmth_in-known :
      (label : String) (blocks : List ℕ) (known : Map String (BackendSnapshot (doubles D)))
      (b : BackendSnapshot (doubles D))
      → lookup label known ≡ some b
      → record_warmth_in D label blocks known
        ≡ insert label (record b { warmth = insert_all blocks b.warmth }) known
  unfolding record_warmth_in warm_found
  record_warmth_in-known label blocks known b e = ap (warm_found D label blocks known) e

  -- What the router itself records of a prefill, run by a backend of the live plane's snapshot, is no use
  -- to a request that has an identity and a registry: its route stays as it was, where no block of the
  -- request, salted for its domain, collides with a recorded block, all of which are stored without salt.
  pub route_impl-record_warmth :
      (s : Surroundings) (head : Bytes) (c : IsolationCtx) (r : Router D)
      (snap : StateSnapshot (doubles D)) (label : String) (b : BackendSnapshot (doubles D))
      (recorded : ℕ)
      → lookup label snap.prefill ≡ some b
      → All
          (λ k.
            All
              (λ j.
                salt_block j
                  (salt mac (resolve_domain_key c.tenant c.group c.content_fp c.registry))
                ≢ k)
              (default_routing_blocks (estimate_prompt_tokens head)))
          (default_routing_blocks recorded)
      → (route_impl D mac salt_block s head
          (some c)
          (record_request_warmth D label prefill_phase recorded (with_plane D snap r))).answer
        ≡ (route_impl D mac salt_block s head (some c) (with_plane D snap r)).answer
  unfolding backend_hits record_request_warmth record_warmth record_warmth_in
  route_impl-record_warmth s head c r snap label b recorded known apart =
      let next =
        if is_known D label snap.prefill
        then saturating_add snap.generation 1
        else snap.generation in
      let blocks = default_routing_blocks (estimate_prompt_tokens head) in
      let warmer = insert_all (default_routing_blocks recorded) b.warmth in
      ap
        (λ p.
          (route_impl D mac salt_block s head (some c)
            (with_plane D (record snap { generation = next; prefill = p }) r)).answer)
        (record_warmth_in-known label (default_routing_blocks recorded) snap.prefill b known)
      ∙ route_impl-alike D mac salt_block s head c (with_warmth D next label b warmer snap) snap r (
          with_warmth-Alike next blocks c label b warmer snap known (
            gated_hit_strength-insert_all mac salt_block b.warmth c.registry c.tenant c.group
              c.content_fp blocks (default_routing_blocks recorded) apart))
