-- ===== src/Cost.antt =====
-- The cost crate, crates/demiurge-cost: its generated parameters, the KV footprint, the factors
-- of a cost and their composition, and the time of a transfer.
pub mod Params
pub mod Kv
pub mod Factors
pub mod Compose
pub mod Rdma
mod Tests
