-- ===== src/Dataplane.antt =====
-- The data plane, crates/demiurge-dataplane: admission shed and its choice of layer, the published
-- table, the kernel's program and the forwarder.
pub mod Bucket
pub mod AdmitMode
pub mod Rcu
pub mod Netlink
pub mod Xdp
pub mod Uring
mod Tests
