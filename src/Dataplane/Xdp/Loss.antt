-- ===== src/Dataplane/Xdp/Loss.antt =====
-- What becomes of an interface's programs: the router finds its own by what the kernel reports, and
-- takes every program away when it finds that its own is not there. Of the kernel the theorems rely
-- on what is documented of RTM_SETLINK, and on its reports.
use demiurge.Base.{
  ℕ, ◌≡◌, ◌≢◌, ◌↔◌, ◌⊎◌, Bool, true, ◌&&◌, not, Option, none, some, ◌==◌, if◌then◌else◌, refl, ◌∙◌,
  arith, Bool-cases, inl, inr,
}
use demiurge.Base.LittleEndian.{to_le_bytes}
use demiurge.Dataplane.Netlink.{xdp_attrs, push_nla_bytes, pad, answered}
use demiurge.Dataplane.Xdp.Link.{
  LinkKernel, XdpLink, AttachMode, driver, skb, skb_fallback, xdp_detach_flags, ack_of,
  netlink_xdp_set, asked_index, is_ours, link_alive, drop_link, check_link,
}
use demiurge.Dataplane.Xdp.Report.{first_program, Reports, query_iface_xdp_prog_id-Reports}

is_nonzero : (n : ℕ) → n ≢ 0 → not (n == 0) ≡ true
is_nonzero n h = ground arith

both : (a b : Bool) → (a && b) ≡ true → (a ≡ true) × (b ≡ true)
both a b h = ground arith

module _ (N : LinkKernel) where
  -- What is documented of a detach that is acknowledged: the mode that is asked for has no program
  -- after it, and the other one keeps its own.
  pub record Detaches (native generic : ℕ → N.K → Option ℕ) : Type 0 where
    pub clears_generic :
        (i : ℕ) (k : N.K)
        → ack_of N (N.set_link i (xdp_attrs N.ifla_xdp none 2) k).0 ≡ none
        → (generic i (N.set_link i (xdp_attrs N.ifla_xdp none 2) k).1 ≡ none)
          × (native i (N.set_link i (xdp_attrs N.ifla_xdp none 2) k).1 ≡ native i k)
    pub clears_native :
        (i : ℕ) (k : N.K)
        → ack_of N (N.set_link i (xdp_attrs N.ifla_xdp none 4) k).0 ≡ none
        → (native i (N.set_link i (xdp_attrs N.ifla_xdp none 4) k).1 ≡ none)
          × (generic i (N.set_link i (xdp_attrs N.ifla_xdp none 4) k).1 ≡ generic i k)

  is_ours-first_program :
      (shed : XdpLink) (native generic : Option ℕ)
      → shed.prog_id ≢ 0
      → (is_ours shed (answered (first_program native generic)) ≡ true)
        ↔ (first_program native generic ≡ some shed.prog_id)
  unfolding is_ours first_program
  is_ours-first_program shed none none h = ground arith
  is_ours-first_program shed none (some g) h = ground (arith, h)
  is_ours-first_program shed (some n) generic h = ground (arith, h)

  link_alive_lem :
      (native generic : Option ℕ) (shed : XdpLink) (k : N.K)
      → shed.ifindex ≢ 0
      → Reports N native generic (N.get_link shed.ifindex k)
      → link_alive N shed k
        ≡ (N.is_present shed.iface k && is_ours shed (answered (first_program native generic)))
  unfolding link_alive asked_index
  link_alive_lem native generic shed k index r = rw (is_nonzero shed.ifindex index) (
      rw (query_iface_xdp_prog_id-Reports N native generic shed.ifindex k r)
        (elim (Bool-cases (N.is_present shed.iface k)) [ inl e ↦ rw e refl | inr e ↦ rw e refl ]))

  -- The router takes its link to be alive just if the interface is there and the first of its programs,
  -- the driver's or else the generic one, is the one that the router attached, given that the number of
  -- the program and of the interface were known when it was attached and that the kernel reports them.
  pub link_alive_iff :
      (native generic : Option ℕ) (shed : XdpLink) (k : N.K)
      → shed.prog_id ≢ 0
      → shed.ifindex ≢ 0
      → Reports N native generic (N.get_link shed.ifindex k)
      → (link_alive N shed k ≡ true)
        ↔ ((N.is_present shed.iface k ≡ true) × (first_program native generic ≡ some shed.prog_id))
  link_alive_iff native generic shed k id index r =
      let ours = is_ours-first_program shed native generic id in
      rw (link_alive_lem native generic shed k index r)
        ((λ e. let (here, it) = both _ _ e in (here, ours.0 it)), (λ e. rw e.0 (ours.1 e.1)))

  -- Every detach of an interface is acknowledged.
  abbrev pub Acknowledges : ℕ → Type 0
  Acknowledges i =
      (flags : ℕ) (k : N.K)
      → (flags ≡ 2) ⊎ (flags ≡ 4)
      → (netlink_xdp_set N i none flags k).0 ≡ none

  module _ (native generic : ℕ → N.K → Option ℕ) (d : Detaches native generic) (i : ℕ) where
    generic_first :
        (k : N.K)
        → Acknowledges i
        → (native i (netlink_xdp_set N i none 4 (netlink_xdp_set N i none 2 k).1).1 ≡ none)
          × (generic i (netlink_xdp_set N i none 4 (netlink_xdp_set N i none 2 k).1).1 ≡ none)
    unfolding netlink_xdp_set xdp_attrs push_nla_bytes pad to_le_bytes
    generic_first k acks =
        let first = (netlink_xdp_set N i none 2 k).1 in
        let one = d.clears_generic i k (acks 2 k (inl refl)) in
        let two = d.clears_native i first (acks 4 first (inr refl)) in (two.0, two.1 ∙ one.0)

    native_first :
        (k : N.K)
        → Acknowledges i
        → (native i (netlink_xdp_set N i none 2 (netlink_xdp_set N i none 4 k).1).1 ≡ none)
          × (generic i (netlink_xdp_set N i none 2 (netlink_xdp_set N i none 4 k).1).1 ≡ none)
    unfolding netlink_xdp_set xdp_attrs push_nla_bytes pad to_le_bytes
    native_first k acks =
        let first = (netlink_xdp_set N i none 4 k).1 in
        let one = d.clears_native i k (acks 4 k (inr refl)) in
        let two = d.clears_generic i first (acks 2 first (inl refl)) in (two.1 ∙ one.0, two.0)

    either_first :
        (mode : AttachMode) (k : N.K)
        → Acknowledges i
        → (native i
              (netlink_xdp_set N i none
                (if xdp_detach_flags mode == 2 then 4 else 2)
                (netlink_xdp_set N i none (xdp_detach_flags mode) k).1).1
            ≡ none)
          × (generic i
                (netlink_xdp_set N i none
                  (if xdp_detach_flags mode == 2 then 4 else 2)
                  (netlink_xdp_set N i none (xdp_detach_flags mode) k).1).1
              ≡ none)
    unfolding xdp_detach_flags
    either_first driver k acks = native_first k acks
    either_first skb k acks = generic_first k acks
    either_first skb_fallback k acks = generic_first k acks

  drop_link-clears :
      (native generic : ℕ → N.K → Option ℕ) (shed : XdpLink) (k : N.K)
      → Detaches native generic
      → shed.ifindex ≢ 0
      → Acknowledges shed.ifindex
      → (native shed.ifindex (drop_link N shed k) ≡ none)
        × (generic shed.ifindex (drop_link N shed k) ≡ none)
  unfolding drop_link
  drop_link-clears native generic shed k d index acks =
      rw (is_nonzero shed.ifindex index)
        (either_first native generic d shed.ifindex shed.mode k acks)

  -- When the first program of the interface is not the one that the router attached, since it was
  -- removed or another was attached in its place, the router's check of its link leaves the router
  -- without a program of the kernel, and the interface without any program at all: the other one is
  -- removed too, if the kernel reports the programs and acknowledges their removal, and the numbers of
  -- the router's program and of the interface were known when it was attached.
  pub check_link-replaced :
      (native generic : ℕ → N.K → Option ℕ) (shed : XdpLink) (k : N.K)
      → Detaches native generic
      → shed.prog_id ≢ 0
      → shed.ifindex ≢ 0
      → Reports N (native shed.ifindex k) (generic shed.ifindex k) (N.get_link shed.ifindex k)
      → first_program (native shed.ifindex k) (generic shed.ifindex k) ≢ some shed.prog_id
      → Acknowledges shed.ifindex
      → ((check_link N (some shed) k).0 ≡ none)
        × (native shed.ifindex (check_link N (some shed) k).1 ≡ none)
        × (generic shed.ifindex (check_link N (some shed) k).1 ≡ none)
  unfolding check_link
  check_link-replaced native generic shed k d id index r other acks =
      let alive =
        link_alive_iff (native shed.ifindex k) (generic shed.ifindex k) shed k id index r in
      let clear = drop_link-clears native generic shed k d index acks in
      elim (Bool-cases (link_alive N shed k)) [
        | inl e ↦ absurd (other (alive.0 e).1)
        | inr e ↦ rw e (refl, clear.0, clear.1)
      ]
