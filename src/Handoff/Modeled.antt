-- ===== src/Handoff/Modeled.antt =====
-- crates/demiurge-handoff/src/transport.rs: the transport whose time is that of the model of transfers,
-- and the choice of a transport. `Duration::from_secs_f64`, in nanoseconds, is a parameter; the
-- environment's value is an argument.
use demiurge.Base.{
  ℕ, Option, none, some, String, Map, map, Bytes, bytes, bytes_eq, lower, if◌then◌else◌, string_key,
}
use demiurge.Base.Maps.{lookup}
use demiurge.Base.F64.{F64}
use demiurge.Cost.Rdma.{TopologyId, rdma_distance, transfer_seconds}
use demiurge.Handoff.{
  HandoffDescriptor, TransferOutcome, HandoffTransport, header_passthrough, mock_rdma,
}

-- `topology.get(label).cloned().unwrap_or_default()`
unfoldable pub topology_at : Map String TopologyId → String → TopologyId
unfolding lookup
topology_at topology label = elim (lookup label topology) [
  | none ↦ record { node = ""; rack = ""; cluster = "" }
  | some topo ↦ topo
]

-- `decode_label.unwrap_or(source_label)`
unfoldable pub decode_end : HandoffDescriptor → String
decode_end desc = elim desc.decode_label [ none ↦ desc.source_label | some label ↦ label ]

module _ (D : F64) (from_secs_f64 : D.F → ℕ) where
  unfoldable pub modeled_transfer : Map String TopologyId → HandoffDescriptor → ℕ → TransferOutcome
  unfolding topology_at decode_end
  modeled_transfer topology desc prefill_wall =
      let pf = topology_at topology desc.source_label in
      let dc = topology_at topology (decode_end desc) in
      record {
        transferred = desc.byte_len;
        wall = from_secs_f64 (transfer_seconds D desc.byte_len (rdma_distance pf dc));
      }

-- `MockRdmaTransport::DEFAULT_LATENCY_US`
abbrev pub default_latency_us : ℕ
default_latency_us = 50

pub data ChosenTransport : Type 0 where
  plain : HandoffTransport → ChosenTransport
  modeled_rdma : Map String TopologyId → ChosenTransport

unfoldable pub handoff_transport_from_env : Option Bytes → Map String TopologyId → ChosenTransport
unfolding bytes_eq
handoff_transport_from_env none topology = plain header_passthrough
handoff_transport_from_env (some v) topology =
    let name = map lower v in
    if bytes_eq name (bytes "mock_rdma")
    then plain (mock_rdma default_latency_us)
    else if bytes_eq name (bytes "modeled_rdma")
    then modeled_rdma topology
    else plain header_passthrough
