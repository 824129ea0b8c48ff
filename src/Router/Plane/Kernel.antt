-- ===== src/Router/Plane/Kernel.antt =====
-- crates/demiurge-router/src/lib.rs: the router is given a program of the kernel. How the program is
-- attached, which may fail, is an argument.
use demiurge.Base.{
  ℕ, ◌≡◌, ◌⊎◌, inl, inr, refl, ap, ◌∙◌, true, not, Option, none, some, Bytes, ◌==◌, ==_iff,
  if◌then◌else◌, arith,
}
use demiurge.Base.F64.{F64}
use demiurge.Dataplane.AdmitMode.{hybrid, wants_kernel}
use demiurge.Dataplane.Bucket.{reseed}
use demiurge.Dataplane.Rcu.{admit_capacity_for_pi, read_pi}
use demiurge.Dataplane.Xdp.{XdpAdmitConfig, default_config}
use demiurge.Dataplane.Xdp.Link.{XdpAttachError}
use demiurge.Router.Plane.{Router, dataplane_admit_burst}
use demiurge.Router.Plane.Counters.{sync_admit_capacity, maybe_sync_admit_for_pi}

module _ {A : Type 0} where
  -- `attach(..)?`
  unfoldable pub after_attach : Option XdpAttachError → A → XdpAttachError ⊎ A
  after_attach (some e) r = inl e
  after_attach none r = inr r

module _ (D : F64) where
  -- The configuration that the program gets.
  unfoldable pub kernel_config : Option ℕ → Router D → XdpAdmitConfig
  unfolding admit_capacity_for_pi read_pi default_config
  kernel_config listen_port r = record default_config {
    capacity = admit_capacity_for_pi D dataplane_admit_burst (read_pi D r.dataplane);
    listen_port = listen_port;
  }

  -- What is made of the router once the program is attached.
  unfoldable pub with_attached : Option ℕ → Router D → Router D
  unfolding kernel_config sync_admit_capacity
  with_attached listen_port r =
      let mode = if not (wants_kernel r.admit_mode) then hybrid else r.admit_mode in
      sync_admit_capacity D (kernel_config listen_port r).capacity
        (record r { admit_mode = mode; kernel_attached = true })

  unfoldable pub with_kernel_admit :
      (Bytes → XdpAdmitConfig → Option XdpAttachError)
      → Bytes
      → Option ℕ
      → Router D
      → XdpAttachError ⊎ Router D
  unfolding after_attach kernel_config with_attached
  with_kernel_admit attach iface listen_port r =
      after_attach (attach iface (kernel_config listen_port r)) (with_attached listen_port r)

  maybe_sync_admit_for_pi-same :
      (pi : D.F) (r : Router D)
      → admit_capacity_for_pi D dataplane_admit_burst pi ≡ r.last_admit_capacity
      → maybe_sync_admit_for_pi D pi r ≡ r
  unfolding maybe_sync_admit_for_pi
  maybe_sync_admit_for_pi-same pi r same =
      let cap = admit_capacity_for_pi D dataplane_admit_burst pi in
      let equal : (cap == r.last_admit_capacity) ≡ true =
        (==_iff cap r.last_admit_capacity).1 same in
      rw equal refl

  capacity-with_attached :
      (listen_port : Option ℕ) (r : Router D)
      → (with_attached listen_port r).admit.capacity
        ≡ admit_capacity_for_pi D dataplane_admit_burst (read_pi D r.dataplane)
  unfolding with_attached sync_admit_capacity reseed kernel_config admit_capacity_for_pi
  capacity-with_attached listen_port r = omega arith

  -- When a program was attached at one share, and the router then comes to a share whose capacity is the
  -- one that it had recorded before the program was attached, the bucket is not synchronized: it keeps
  -- the capacity of the share at which the program was attached.
  pub with_kernel_admit-stale :
      (attach : Bytes → XdpAdmitConfig → Option XdpAttachError) (iface : Bytes)
      (listen_port : Option ℕ) (r : Router D) (pi : D.F)
      → attach iface (kernel_config listen_port r) ≡ none
      → admit_capacity_for_pi D dataplane_admit_burst pi ≡ r.last_admit_capacity
      → (r' : Router D) × (with_kernel_admit attach iface listen_port r ≡ inr r')
        × ((maybe_sync_admit_for_pi D pi r').admit.capacity
            ≡ admit_capacity_for_pi D dataplane_admit_burst (read_pi D r.dataplane))
  unfolding with_kernel_admit
  with_kernel_admit-stale attach iface listen_port r pi made same =
      let r' = with_attached listen_port r in
      let still : admit_capacity_for_pi D dataplane_admit_burst pi ≡ r'.last_admit_capacity =
        unfold with_attached sync_admit_capacity in same in
      (
        r',
        ap (λ o. after_attach o r') made,
        ap (λ (x : Router D). x.admit.capacity) (maybe_sync_admit_for_pi-same pi r' still)
            ∙ capacity-with_attached listen_port r,
      )
