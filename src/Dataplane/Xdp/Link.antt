-- ===== src/Dataplane/Xdp/Link.antt =====
-- crates/demiurge-dataplane/src/xdp_linux.rs: a program is attached to an interface, asked for and
-- removed by messages to the kernel. The kernel is a parameter: its state, how it answers a message,
-- the names of its interfaces, and the text of an error. A text is the list of its characters. The environment's value is an argument.
use demiurge.Base.{
  ℕ, ◌⊎◌, inl, inr, Bool, false, not, Option, none, some, ◌++◌, ltb, ◌==◌, if◌then◌else◌, length,
  take, Bytes, bytes, eq_ci,
}
use demiurge.Dataplane.Netlink.{xdp_attrs, read_ack, read_answer, Query, answered, os_error}

-- What a socket gives: what was received, or the number of an error of opening, sending or receiving.
pub data KernelReply : Type 0 where
  received : Bytes → KernelReply
  failed : ℕ → KernelReply

pub record LinkKernel : Type 1 where
  pub K : Type 0
  pub ifla_xdp : ℕ
  -- `if_nametoindex`, and whether the interface has a directory in /sys/class/net
  pub index_of : Bytes → K → Option ℕ
  pub is_present : Bytes → K → Bool
  -- RTM_SETLINK with an interface and the attributes, RTM_GETLINK with an interface
  pub set_link : ℕ → Bytes → K → KernelReply × K
  pub get_link : ℕ → K → KernelReply
  -- how an error of the system is shown
  pub show : ℕ → Bytes

pub data AttachMode : Type 0 where
  driver skb skb_fallback : AttachMode

unfoldable pub xdp_detach_flags : AttachMode → ℕ
xdp_detach_flags driver = 4
xdp_detach_flags skb = 2
xdp_detach_flags skb_fallback = 2

pub data XdpAttachError : Type 0 where
  unsupported_platform object_not_built : XdpAttachError
  load_failed attach_failed : Bytes → XdpAttachError

-- What is the same of `XdpAdmitShed` whatever its maps hold.
pub record XdpLink : Type 0 where
  pub iface : Bytes
  pub mode : AttachMode
  pub ifindex : ℕ
  pub prog_id : ℕ

-- The arms of `link_alive` on what the query answers.
unfoldable pub is_ours : XdpLink → Query → Bool
is_ours shed (os_error e) = false
is_ours shed (answered none) = false
is_ours shed (answered (some id)) = if shed.prog_id == 0 then not (id == 0) else id == shed.prog_id

module _ (N : LinkKernel) where
  -- The error's text, if there is one. A buffer has room for the first 1024 bytes.
  unfoldable pub ack_of : KernelReply → Option Bytes
  unfolding read_ack
  ack_of (failed e) = some (N.show e)
  ack_of (received b) = elim (read_ack (take 1024 b)) [ none ↦ none | some e ↦ some (N.show e) ]

  unfoldable pub netlink_xdp_set : ℕ → Option ℕ → ℕ → N.K → Option Bytes × N.K
  unfolding xdp_attrs ack_of
  netlink_xdp_set if_index prog_fd flags k =
      let attrs = xdp_attrs N.ifla_xdp prog_fd flags in
      if ltb 256 (length attrs)
      then (some (bytes "xdp netlink attrs too large"), k)
      else (let (reply, after) = N.set_link if_index attrs k in (ack_of reply, after))

  unfoldable pub query_iface_xdp_prog_id : ℕ → N.K → Query
  unfolding read_answer
  query_iface_xdp_prog_id ifindex k = elim (N.get_link ifindex k) [
    | failed e ↦ os_error e
    | received b ↦ read_answer N.ifla_xdp (take 8192 b)
  ]

  -- What `attach_program` answers, the mode and the interface's number, and the kernel after it.
  pub data Attached : Type 0 where
    attached : AttachMode → ℕ → N.K → Attached
    refused : XdpAttachError → N.K → Attached

  -- `DEMIURGE_XDP_FLAGS` asks for the generic mode alone.
  unfoldable pub forces_skb : Option Bytes → Bool
  unfolding eq_ci
  forces_skb none = false
  forces_skb (some v) = eq_ci v (bytes "skb")

  attach_skb : Bytes → ℕ → ℕ → N.K → Attached
  unfolding netlink_xdp_set
  attach_skb iface ifindex prog_fd k =
      let (e, after) = netlink_xdp_set ifindex (some prog_fd) 2 k in
      elim e [
        | none ↦ attached skb ifindex after
        | some e ↦ refused (attach_failed (iface ++ (bytes " (skb): " ++ e))) after
      ]

  attach_native : Bytes → ℕ → ℕ → N.K → Attached
  unfolding netlink_xdp_set
  attach_native iface ifindex prog_fd k =
      let (native, after) = netlink_xdp_set ifindex (some prog_fd) 0 k in
      let (generic, last) = netlink_xdp_set ifindex (some prog_fd) 2 after in
      elim native [
        | none ↦ attached driver ifindex after
        | some native_err ↦ elim generic [
          | none ↦ attached skb_fallback ifindex last
          | some skb_err ↦
              refused
                (attach_failed
                  (iface ++ (bytes ": native: " ++ (native_err ++ (bytes "; skb: " ++ skb_err)))))
                last
        ]
      ]

  -- With the descriptor of the program, or the text of why there is none.
  unfoldable pub attach_program : Option Bytes → Bytes ⊎ ℕ → Bytes → N.K → Attached
  unfolding forces_skb attach_skb attach_native
  attach_program env_flags prog_fd iface k = elim (N.index_of iface k) [
    | none ↦ refused (attach_failed (bytes "unknown interface " ++ iface)) k
    | some ifindex ↦ elim prog_fd [
      | inl e ↦ refused (attach_failed (bytes "prog fd: " ++ e)) k
      | inr fd ↦
          if forces_skb env_flags
          then attach_skb iface ifindex fd k
          else attach_native iface ifindex fd k
    ]
  ]

  -- The number that is asked about: the one of the attachment, or what the name has now.
  unfoldable pub asked_index : XdpLink → N.K → Option ℕ
  asked_index shed k =
      if not (shed.ifindex == 0) then some shed.ifindex else N.index_of shed.iface k

  unfoldable pub link_alive : XdpLink → N.K → Bool
  unfolding asked_index is_ours query_iface_xdp_prog_id
  link_alive shed k =
      let ours : Bool = elim (asked_index shed k) [
        | none ↦ false
        | some ifindex ↦ is_ours shed (query_iface_xdp_prog_id ifindex k)
      ] in
      if not (N.is_present shed.iface k) then false else ours

  -- `drop`, which leaves both answers unread.
  unfoldable pub drop_link : XdpLink → N.K → N.K
  unfolding netlink_xdp_set xdp_detach_flags
  drop_link shed k =
      let flags = xdp_detach_flags shed.mode in
      let other = if flags == 2 then 4 else 2 in
      let cleared = (netlink_xdp_set shed.ifindex none flags k).1 in
      if not (shed.ifindex == 0) then (netlink_xdp_set shed.ifindex none other cleared).1 else k

  -- `check_kernel_admit_link` of the router, with what it holds of the kernel's program.
  unfoldable pub check_link : Option XdpLink → N.K → Option XdpLink × N.K
  unfolding link_alive drop_link
  check_link none k = (none, k)
  check_link (some shed) k =
      if not (link_alive shed k) then (none, drop_link shed k) else (some shed, k)
