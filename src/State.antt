-- ===== src/State.antt =====
-- The state plane, crates/demiurge-state: what each backend has cached, and how replicas agree.
pub mod Warmth
pub mod Snapshot
pub mod Pool
mod Tests
