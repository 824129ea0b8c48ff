-- ===== src/Dataplane/Bucket/Reseed.antt =====
-- A reseed between the loads and the swap of a `release`.
