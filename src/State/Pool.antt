-- ===== src/State/Pool.antt =====
-- crates/demiurge-state/src/snapshot.rs: how warm a backend of a snapshot is for a request, under the
-- isolation of its cache domain if any.
use demiurge.Base.{
  ℕ, Bool, Option, none, some, List, [], ◌∷◌, String, string_key, if◌then◌else◌, ◌==◌, Bytes,
}
use demiurge.Base.F64.{F64}
use demiurge.Base.Maps.{lookup}
use demiurge.Auth.{SharedPrefixGroupRegistry}
use demiurge.State.Warmth.{WarmthMap, hit_strength, gated_hit_strength}
use demiurge.State.Snapshot.{Doubles, BackendSnapshot, StateSnapshot}

-- The operations that a snapshot needs, among those of `f64`.
abbrev pub doubles : F64 → Doubles
doubles D = record {
  F = D.F;
  zero_f = D.literal 0 0;
  clamp_unit = λ x. D.clamp x (D.literal 0 0) (D.literal 1 0);
  max_f = D.max_of;
}

pub record IsolationCtx : Type 0 where
  pub registry : SharedPrefixGroupRegistry
  pub tenant : ℕ
  pub group : ℕ
  pub content_fp : ℕ

module _ (D : F64) (mac : Bytes → Bytes) (salt_block : ℕ → ℕ → ℕ) where
  -- The quotient of the hits and the blocks, and 0 for no blocks.
  pub strength : List ℕ → ℕ × ℕ → D.F
  strength [] hits = D.literal 0 0
  strength (b ∷ bs) (hits, blocks) = D.div (D.of_u64 hits) (D.of_u64 blocks)

  unfoldable pub backend_hits : WarmthMap → List ℕ → Option IsolationCtx → ℕ × ℕ
  unfolding hit_strength gated_hit_strength
  backend_hits w blocks none = hit_strength blocks w
  backend_hits w blocks (some c) =
      gated_hit_strength mac salt_block w c.registry c.tenant c.group c.content_fp blocks

  -- Of what was found under a label; a backend that is absent is cold.
  unfoldable pub found_strength :
      List ℕ → Option IsolationCtx → Option (BackendSnapshot (doubles D)) → D.F
  unfolding strength backend_hits
  found_strength blocks isolation none = D.literal 0 0
  found_strength blocks isolation (some b) =
      strength blocks (backend_hits b.warmth blocks isolation)

  unfoldable pub pool_hit_strength :
      Bool → String → List ℕ → Option IsolationCtx → StateSnapshot (doubles D) → D.F
  unfolding found_strength lookup
  pool_hit_strength decode_pool label blocks isolation snap =
      found_strength blocks isolation
        (lookup label (if decode_pool then snap.decode else snap.prefill))

module _ (D : F64) where
  -- `kv_pressure`
  unfoldable pub kv_pressure : BackendSnapshot (doubles D) → D.F
  kv_pressure b =
      let share = D.div (D.of_u64 b.kv_bytes_live) (D.of_u64 b.kv_capacity_bytes) in
      if b.kv_capacity_bytes == 0
      then D.literal 0 0
      else D.clamp share (D.literal 0 0) (D.literal 1 0)
