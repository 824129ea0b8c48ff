-- ===== src/Dataplane/Tests.antt =====
-- Runs of the choice of the layer, and its theorem at a concrete input.
use demiurge.Base.{◌≡◌, refl, some, bytes, bytes_eq, trim}
use demiurge.Dataplane.AdmitMode.{from_env, kernel_xdp}

parsed : from_env (some (bytes " XDP ")) ≡ kernel_xdp
unfolding from_env bytes_eq trim
parsed = refl
