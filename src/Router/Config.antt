-- ===== src/Router/Config.antt =====
-- crates/demiurge-router/src/config.rs: the specifications of the topology and of a pool. A text is the
-- list of its bytes, which are ASCII here. How the bytes are a label, how a text is quoted, and how the
-- standard library reads an address and a double are parameters; an address is only read.
pub mod RoundTrip
mod Tests
use demiurge.Base.{
  ℕ, Bool, true, false, ◌⊎◌, inl, inr, Option, none, some, List, [], ◌∷◌, ◌++◌, String,
  String_discrete, Map, ◌==◌, if◌then◌else◌, Bytes, bytes, split, string_key,
}
use demiurge.Base.Maps.{lookup, insert}
use demiurge.Base.F64.{F64}
use demiurge.Cost.Rdma.{TopologyId}
use demiurge.Router.{items}
use demiurge.Router.Backend.{Backend, new}

-- `split_once`
unfoldable pub split_once : ℕ → Bytes → Option (Bytes × Bytes)
split_once sep [] = none
split_once sep (x ∷ xs) =
    let rest : Option (Bytes × Bytes) = elim (split_once sep xs) [
      | none ↦ none
      | some halves ↦ some (x ∷ halves.0, halves.1)
    ] in
    if x == sep then some ([], xs) else rest

module _ (text : Bytes → String) where
  -- `node/rack/cluster`
  unfoldable pub topology_of : List Bytes → Option TopologyId
  topology_of (node ∷ rack ∷ cluster ∷ []) =
      some (record { node = text node; rack = text rack; cluster = text cluster })
  topology_of _ = none

  unfoldable pub labelled : Bytes → Option TopologyId → Option (String × TopologyId)
  labelled label none = none
  labelled label (some topo) = some (text label, topo)

  unfoldable pub item_of_halves : Option (Bytes × Bytes) → Option (String × TopologyId)
  unfolding labelled topology_of split
  item_of_halves none = none
  item_of_halves (some (label, rest)) = labelled label (topology_of (split (λ b. b == b'/') rest))

  -- One item `label@node/rack/cluster`; no result for an error.
  unfoldable pub topology_item : Bytes → Option (String × TopologyId)
  unfolding split_once item_of_halves
  topology_item item = item_of_halves (split_once b'@' item)

module _ (text : Bytes → String) (quoted : Bytes → Bytes) where
  -- The loop, with what was inserted before.
  unfoldable pub topology_items : List Bytes → Map String TopologyId → Bytes ⊎ Map String TopologyId
  unfolding topology_item
  topology_items [] out = inr out
  topology_items (item ∷ rest) out = elim (topology_item text item) [
    | none ↦
        inl (bytes "bad topology spec " ++ (quoted item ++ bytes "; want label@node/rack/cluster"))
    | some entry ↦ topology_items rest (insert entry.0 entry.1 out)
  ]

  unfoldable pub parse_topology_map : Bytes → Bytes ⊎ Map String TopologyId
  unfolding topology_items items
  parse_topology_map spec = topology_items (items b',' spec) []

module _ (D : F64) (text : Bytes → String) (quoted : Bytes → Bytes) where
  -- What `parse` gives for an address and for a double: a value, or the text of an error.
  pub record Parsers : Type 0 where
    pub address : Bytes → Bytes ⊎ Bytes
    pub seconds : Bytes → Bytes ⊎ D.F

  -- `topology.get(label).cloned().unwrap_or_default()`
  unfoldable pub topology_or_default : Map String TopologyId → String → TopologyId
  unfolding lookup
  topology_or_default topology label = elim (lookup label topology) [
    | none ↦ record { node = ""; rack = ""; cluster = "" }
    | some topo ↦ topo
  ]

  -- One item `label@host:port@seconds`
  unfoldable pub pool_item :
      Parsers → Map String TopologyId → Bytes → List Bytes → Bytes ⊎ Backend D
  unfolding topology_or_default
  pool_item parse topology item (label ∷ addr ∷ secs ∷ []) = elim (parse.address addr) [
    | inl e ↦ inl (bytes "bad address " ++ (quoted addr ++ (bytes ": " ++ e)))
    | inr address ↦ elim (parse.seconds secs) [
      | inl e ↦ inl (bytes "bad seconds " ++ (quoted secs ++ (bytes ": " ++ e)))
      | inr seconds ↦ inr (new D (text label) seconds (topology_or_default topology (text label)))
    ]
  ]
  pool_item parse topology item _ =
      inl (bytes "bad backend spec " ++ (quoted item ++ bytes "; want label@host:port@seconds"))

  unfoldable pub pool_items :
      Parsers → Map String TopologyId → List Bytes → Bytes ⊎ List (Backend D)
  unfolding pool_item split
  pool_items parse topology [] = inr []
  pool_items parse topology (item ∷ rest) =
      elim (pool_item parse topology item (split (λ b. b == b'@') item)) [
        | inl e ↦ inl e
        | inr backend ↦ elim (pool_items parse topology rest) [
          | inl e ↦ inl e
          | inr backends ↦ inr (backend ∷ backends)
        ]
      ]

  unfoldable pub parse_pool_with_topology :
      Parsers → Bytes → Map String TopologyId → Bytes ⊎ List (Backend D)
  unfolding pool_items items
  parse_pool_with_topology parse spec topology = pool_items parse topology (items b',' spec)

  unfoldable pub parse_pool : Parsers → Bytes → Bytes ⊎ List (Backend D)
  unfolding parse_pool_with_topology
  parse_pool parse spec = parse_pool_with_topology parse spec []
