-- ===== src/State/Snapshot.antt =====
-- crates/demiurge-state/src/snapshot.rs and gossip.rs beside it: the snapshot of the fleet, the updates
-- by gossip and the merge that heals a partition. The occupancy is a double that the program only
-- clamps and compares: its type and these two operations are given by `Doubles`.
pub mod Heal
pub mod Race
use demiurge.Base.{
  ℕ, ◌+◌, max, Bool, true, false, Option, none, some, List, [], ◌∷◌, String, Map, string_key,
  if◌then◌else◌, wrapping_add,
}
use demiurge.Base.Maps.{lookup, insert}
use demiurge.State.Warmth.{WarmthMap, default_map, insert_all, merge}

-- `f64::clamp(0.0, 1.0)`, `f64::max` and 0.0
pub record Doubles : Type 1 where
  pub F : Type 0
  pub zero_f : F
  pub clamp_unit : F → F
  pub max_f : F → F → F

module _ (D : Doubles) where
  pub record BackendSnapshot : Type 0 where
    pub label : String
    pub warmth : WarmthMap
    pub occupancy : D.F
    pub kv_bytes_live : ℕ
    pub kv_capacity_bytes : ℕ

  pub new_backend : String → ℕ → BackendSnapshot
  new_backend label kv_capacity_bytes = record {
    label = label;
    warmth = default_map;
    occupancy = D.zero_f;
    kv_bytes_live = 0;
    kv_capacity_bytes = kv_capacity_bytes;
  }

  pub record StateSnapshot : Type 0 where
    pub generation : ℕ
    pub prefill : Map String BackendSnapshot
    pub decode : Map String BackendSnapshot

  pub empty : StateSnapshot
  empty = record { generation = 0; prefill = []; decode = [] }

  -- The loops over the labels in `StatePlane::new`
  pub with_labels : ℕ → List String → Map String BackendSnapshot → Map String BackendSnapshot
  unfolding new_backend
  with_labels cap [] pool = pool
  with_labels cap (l ∷ ls) pool = with_labels cap ls (insert l (new_backend l cap) pool)

  pub new_plane : List String → List String → StateSnapshot
  unfolding with_labels
  new_plane prefill_labels decode_labels = record {
    generation = 0;
    prefill = with_labels 0 prefill_labels [];
    decode = with_labels 120000000 decode_labels [];
  }

  pub record GossipUpdate : Type 0 where
    pub backend_label : String
    pub is_decode : Bool
    pub warmth_blocks : List ℕ
    pub occupancy : D.F
    pub kv_bytes_live : ℕ
    pub epoch : ℕ

  pub apply_to_backend : GossipUpdate → BackendSnapshot → BackendSnapshot
  apply_to_backend u b = record b {
    warmth = insert_all u.warmth_blocks b.warmth;
    occupancy = D.clamp_unit u.occupancy;
    kv_bytes_live = u.kv_bytes_live;
  }

  pub apply_to_pool : GossipUpdate → Map String BackendSnapshot → Map String BackendSnapshot
  unfolding apply_to_backend
  apply_to_pool u pool = elim (lookup u.backend_label pool) [
    | none ↦ pool
    | some b ↦ insert u.backend_label (apply_to_backend u b) pool
  ]

  pub apply_gossip : GossipUpdate → StateSnapshot → StateSnapshot
  unfolding apply_to_pool
  apply_gossip u snap =
      if u.is_decode
      then record snap {
        decode = apply_to_pool u snap.decode;
        generation = max snap.generation u.epoch;
      }
      else record snap {
        prefill = apply_to_pool u snap.prefill;
        generation = max snap.generation u.epoch;
      }

  pub merge_backend : BackendSnapshot → BackendSnapshot → BackendSnapshot
  merge_backend b remote = record b {
    warmth = merge b.warmth remote.warmth;
    occupancy = D.max_f b.occupancy remote.occupancy;
    kv_bytes_live = max b.kv_bytes_live remote.kv_bytes_live;
  }

  -- `entry(label).and_modify(..).or_insert_with(..)`
  pub merge_entry :
      String → BackendSnapshot → Map String BackendSnapshot → Map String BackendSnapshot
  unfolding merge_backend
  merge_entry label remote local = elim (lookup label local) [
    | none ↦ insert label remote local
    | some b ↦ insert label (merge_backend b remote) local
  ]

  pub merge_pool :
      Map String BackendSnapshot → Map String BackendSnapshot → Map String BackendSnapshot
  unfolding merge_entry
  merge_pool local [] = local
  merge_pool local ((label, remote) ∷ rest) = merge_pool (merge_entry label remote local) rest

  pub heal_merge : StateSnapshot → StateSnapshot → StateSnapshot
  unfolding merge_pool
  heal_merge remote local = record {
    generation = max local.generation remote.generation;
    prefill = merge_pool local.prefill remote.prefill;
    decode = merge_pool local.decode remote.decode;
  }

  -- The closure of `bump_generation`; `+= 1` wraps in a release build.
  pub bump : StateSnapshot → StateSnapshot
  bump snap = record snap { generation = wrapping_add snap.generation 1 }
