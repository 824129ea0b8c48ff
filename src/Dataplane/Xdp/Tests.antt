-- ===== src/Dataplane/Xdp/Tests.antt =====
-- A kernel that keeps the two programs of one interface, and what the router does with its link there.
use demiurge.Base.{
  ℕ, ◌≡◌, refl, ◌+◌, ◌^◌, true, Option, none, some, List, [], ◌∷◌, ◌++◌, if◌then◌else◌, Bytes,
  bytes, bytes_eq, inl, inr, ◌↔◌, arith,
}
use demiurge.Base.LittleEndian.{to_le_bytes, from_le_bytes}
use demiurge.Dataplane.Netlink.{
  xdp_attrs, read_ack, push_nla_bytes, pad, word, nlmsg_type, nlmsg_error,
}
use demiurge.Dataplane.Netlink.RoundTrip.{push_all}
use demiurge.Dataplane.Netlink.Messages.{link_message}
use demiurge.Dataplane.Xdp.Link.{
  LinkKernel, KernelReply, received, failed, XdpLink, driver, skb_fallback, attach_program,
  attached, check_link, link_alive, netlink_xdp_set, ack_of,
}
use demiurge.Dataplane.Xdp.Report.{report, first_program, Reports}
use demiurge.Dataplane.Xdp.Loss.{Detaches, Acknowledges, link_alive_iff, check_link-replaced}

abbrev xdp_kind : ℕ
xdp_kind = 43

abbrev acknowledged : KernelReply
acknowledged = received (
    to_le_bytes 4 36
    ++ (to_le_bytes 2 2
        ++ (to_le_bytes 2 0 ++ (to_le_bytes 4 1 ++ (to_le_bytes 4 0 ++ to_le_bytes 4 0)))))

abbrev two_headers : Bytes
two_headers = to_le_bytes 26 0

abbrev attributes : Option ℕ → Option ℕ → List (ℕ × Bytes)
attributes native generic =
    (3, bytes "eth0") ∷ (xdp_kind + 2 ^ 15, push_all (report native generic) []) ∷ []

abbrev sent : Bytes → Option ℕ × Option ℕ → Option ℕ × Option ℕ
unfolding xdp_attrs
sent attrs (native, generic) =
    if bytes_eq attrs (xdp_attrs xdp_kind none 2)
    then (native, none)
    else if bytes_eq attrs (xdp_attrs xdp_kind none 4)
    then (none, generic)
    else (native, generic)

abbrev two_modes : LinkKernel
two_modes = record {
  K = Option ℕ × Option ℕ;
  ifla_xdp = xdp_kind;
  index_of = λ name k. some 7;
  is_present = λ name k. true;
  set_link = λ i attrs k. (acknowledged, sent attrs k);
  get_link = λ i k. received (link_message two_headers (push_all (attributes k.0 k.1) []));
  show = λ e. bytes "error";
}

abbrev ours : XdpLink
ours = record { iface = bytes "eth0"; mode = driver; ifindex = 7; prog_id = 21 }

replaced-Reports : Reports two_modes (some 33) none (two_modes.get_link 7 (some 33, none))
unfolding report push_all push_nla_bytes pad to_le_bytes
replaced-Reports = record {
  headers = two_headers;
  before = (3, bytes "eth0") ∷ [];
  after = [];
  kind = xdp_kind + 2 ^ 15;
  native_id = (ground arith, ground arith);
  generic_id = tt;
  two_headers = refl;
  others = (ground arith, tt);
  is_xdp = refl;
  report_fits = (
    (ground arith, ground arith),
    ((ground arith, ground arith), ((ground arith, ground arith), tt)),
  );
  fits = ((ground arith, ground arith), ((ground arith, ground arith), tt));
  short = ground arith;
  answer = refl;
}

two_modes-Detaches : Detaches two_modes (λ i k. k.0) (λ i k. k.1)
unfolding xdp_attrs bytes_eq to_le_bytes
two_modes-Detaches = record {
  clears_generic = λ i k e. (refl, refl);
  clears_native = λ i k e. (refl, refl);
}

acknowledges : Acknowledges two_modes 7
unfolding netlink_xdp_set ack_of read_ack word nlmsg_type nlmsg_error from_le_bytes to_le_bytes
    xdp_attrs push_nla_bytes pad
acknowledges flags k (inl e) = rw e refl
acknowledges flags k (inr e) = rw e refl

-- The router's program, 21, was replaced by 33: the check of the link removes 33.
check_link-replaced_example :
    ((check_link two_modes (some ours) (some 33, none)).0 ≡ none)
    × ((check_link two_modes (some ours) (some 33, none)).1.0 ≡ none)
    × ((check_link two_modes (some ours) (some 33, none)).1.1 ≡ none)
unfolding first_program
check_link-replaced_example =
    check_link-replaced two_modes (λ i k. k.0) (λ i k. k.1) ours (some 33, none) two_modes-Detaches
      (ground arith) (ground arith) replaced-Reports (ground arith) acknowledges

link_alive_iff_example : (link_alive two_modes ours (some 33, none) ≡ true) ↔ (
    (two_modes.is_present (bytes "eth0") (some 33, none) ≡ true)
    × (first_program (some 33) none ≡ some 21))
link_alive_iff_example =
    link_alive_iff two_modes (some 33) none ours (some 33, none) (ground arith) (ground arith)
      replaced-Reports

-- A driver that knows no programs: the generic mode is tried.
abbrev generic_only : LinkKernel
generic_only = record two_modes {
  set_link = λ i attrs k.
      if bytes_eq attrs (xdp_attrs xdp_kind (some 5) 0)
      then (failed 95, k)
      else (acknowledged, (none, some 5));
}

attach_program_falls_back :
    attach_program generic_only none (inr 5) (bytes "eth0") (none, none)
    ≡ attached skb_fallback 7 (none, some 5)
unfolding attach_program netlink_xdp_set bytes_eq ack_of read_ack word nlmsg_type nlmsg_error
    from_le_bytes to_le_bytes xdp_attrs push_nla_bytes pad
attach_program_falls_back = refl
