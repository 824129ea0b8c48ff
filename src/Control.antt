-- ===== src/Control.antt =====
-- The rest of the control plane, crates/demiurge-control: the prediction of lengths, the share of the
-- prefill pool, the graduation of the corrector, the logs of its shadows and the pairing of backends.
pub mod Predictor
pub mod Rebalancer
pub mod Graduation
pub mod Shadow
pub mod Pairing
pub mod Fleet
mod Tests
