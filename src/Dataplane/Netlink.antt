-- ===== src/Dataplane/Netlink.antt =====
-- crates/demiurge-dataplane/src/xdp_linux.rs: the attributes and messages of the kernel's netlink by
-- which the XDP program of an interface is set and asked for. What the kernel sends is a list of bytes,
-- the words in it in the order of a little-endian machine. The sizes of the kernel's headers are 16
-- bytes, 16 for the interface and 4 for an attribute; the number of the attribute for XDP, which is
-- libc's, is a parameter.
pub mod RoundTrip
pub mod Messages
pub mod Loops
mod Tests
use demiurge.Base.{
  ℕ, zero, suc, ◌+◌, ◌-◌, ◌*◌, ◌/◌, ◌%◌, ◌^◌, Bool, true, false, ◌&&◌, ◌||◌, not, Option, none,
  some, List, [], ◌∷◌, ◌++◌, ltb, leb, ◌==◌, if◌then◌else◌, length, take, drop, get_or, Bytes,
}
use demiurge.Base.LittleEndian.{to_le_bytes, from_le_bytes}

-- `(len + 3) & !3`
abbrev pub nla_align : ℕ → ℕ
nla_align len = (len + 3) / 4 * 4

-- The loop that pads a buffer to a multiple of 4, which takes 3 rounds at most.
unfoldable pub pad : ℕ → Bytes → Bytes
pad zero buf = buf
pad (suc rounds) buf =
    let rest = pad rounds (buf ++ 0 ∷ []) in if length buf % 4 == 0 then buf else rest

unfoldable pub push_nla_bytes : Bytes → ℕ → Bytes → Bytes
unfolding pad to_le_bytes
push_nla_bytes buf nla_type payload =
    pad 3 (buf ++ (to_le_bytes 2 (4 + length payload) ++ (to_le_bytes 2 nla_type ++ payload)))

-- The fields of the attribute that bytes begin with, and what it holds.
unfoldable pub nla_len : Bytes → ℕ
unfolding from_le_bytes
nla_len attrs = from_le_bytes (take 2 attrs)

-- `nla.nla_type & 0x3fff`
unfoldable pub nla_type : Bytes → ℕ
unfolding from_le_bytes
nla_type attrs = from_le_bytes (take 2 (drop 2 attrs)) % 2 ^ 14

unfoldable pub nla_payload : Bytes → Bytes
unfolding nla_len
nla_payload attrs = drop 4 (take (nla_len attrs) attrs)

-- What the loops over attributes go on by: there is a header, and it states a length that it can have.
unfoldable pub is_readable : Bytes → Bool
unfolding nla_len
is_readable attrs =
    leb 4 (length attrs) && not (ltb (nla_len attrs) 4 || ltb (length attrs) (nla_len attrs))

-- `&attrs[off + nla_align(nla_len)..]`, of which there may be nothing
unfoldable pub nla_next : Bytes → Bytes
unfolding nla_len
nla_next attrs = drop (nla_align (nla_len attrs)) attrs

-- The variables of `parse_xdp_nested`.
pub record XdpIds : Type 0 where
  pub attached : ℕ
  pub prog_id : ℕ
  pub drv_id : ℕ
  pub skb_id : ℕ
  pub hw_id : ℕ

abbrev pub no_ids : XdpIds
no_ids = record { attached = 0; prog_id = 0; drv_id = 0; skb_id = 0; hw_id = 0 }

-- `u32::from_ne_bytes(payload[..4])`
unfoldable pub word : Bytes → ℕ
unfolding from_le_bytes
word payload = from_le_bytes (take 4 payload)

unfoldable pub note_attr : ℕ → Bytes → XdpIds → XdpIds
unfolding word
note_attr kind payload ids =
    if kind == 2 && not (length payload == 0)
    then record ids { attached = get_or payload 0 0 }
    else if kind == 4 && leb 4 (length payload)
    then record ids { prog_id = word payload }
    else if kind == 5 && leb 4 (length payload)
    then record ids { drv_id = word payload }
    else if kind == 6 && leb 4 (length payload)
    then record ids { skb_id = word payload }
    else if kind == 7 && leb 4 (length payload)
    then record ids { hw_id = word payload }
    else ids

-- The loop of `parse_xdp_nested`; a round takes 4 bytes at least.
unfoldable pub note_attrs : ℕ → Bytes → XdpIds → XdpIds
unfolding is_readable nla_next nla_type nla_payload note_attr
note_attrs zero attrs ids = ids
note_attrs (suc rounds) attrs ids =
    let rest =
      note_attrs rounds (nla_next attrs) (note_attr (nla_type attrs) (nla_payload attrs) ids) in
    if is_readable attrs then rest else ids

-- `.find(|&id| id != 0)`
unfoldable pub first_id : List ℕ → Option ℕ
first_id [] = none
first_id (id ∷ ids) = let rest = first_id ids in if id == 0 then rest else some id

unfoldable pub xdp_id : XdpIds → Option ℕ
unfolding first_id
xdp_id ids =
    if ids.attached == 0
    then none
    else first_id (ids.prog_id ∷ ids.drv_id ∷ ids.skb_id ∷ ids.hw_id ∷ [])

unfoldable pub parse_xdp_nested : Bytes → Option ℕ
unfolding note_attrs xdp_id
parse_xdp_nested attrs = xdp_id (note_attrs (length attrs) attrs no_ids)

module _ (ifla_xdp : ℕ) where
  -- The loop of `parse_xdp_prog_id`.
  unfoldable pub find_xdp : ℕ → Bytes → Option ℕ
  unfolding is_readable nla_next nla_type nla_payload parse_xdp_nested
  find_xdp zero attrs = none
  find_xdp (suc rounds) attrs =
      let rest = find_xdp rounds (nla_next attrs) in
      if not (is_readable attrs)
      then none
      else if nla_type attrs == ifla_xdp
      then parse_xdp_nested (nla_payload attrs)
      else rest

  unfoldable pub parse_xdp_prog_id : Bytes → Option ℕ
  unfolding find_xdp
  parse_xdp_prog_id attrs = find_xdp (length attrs) attrs

-- What a query of an interface answers: a program or none, or the number of an error.
pub data Query : Type 0 where
  answered : Option ℕ → Query
  os_error : ℕ → Query

-- The fields of the message that bytes begin with. An error's number is negated; bytes past what was
-- received are 0, as the buffer was.
unfoldable pub nlmsg_len : Bytes → ℕ
unfolding from_le_bytes
nlmsg_len msgs = from_le_bytes (take 4 msgs)

unfoldable pub nlmsg_type : Bytes → ℕ
unfolding from_le_bytes
nlmsg_type msgs = from_le_bytes (take 2 (drop 4 msgs))

unfoldable pub nlmsg_error : Bytes → ℕ
unfolding word
nlmsg_error msgs = (2 ^ 32 - word (drop 16 msgs)) % 2 ^ 32

-- There is a whole message.
unfoldable pub is_message : Bytes → Bool
unfolding nlmsg_len
is_message msgs =
    leb 16 (length msgs) && not (ltb (nlmsg_len msgs) 16 || ltb (length msgs) (nlmsg_len msgs))

-- `prog_fd.unwrap_or(-1)`
abbrev fd_or_detach : Option ℕ → ℕ
fd_or_detach none = 2 ^ 32 - 1
fd_or_detach (some fd) = fd

module _ (ifla_xdp : ℕ) where
  -- A message of a link, if it has room for the interface.
  unfoldable pub read_link : Bytes → Query
  unfolding nlmsg_len parse_xdp_prog_id
  read_link msgs = answered (parse_xdp_prog_id ifla_xdp (drop 32 (take (nlmsg_len msgs) msgs)))

  -- By the type of the message, with the answer of those that follow.
  unfoldable pub read_message : Bytes → Query → Query
  unfolding nlmsg_type nlmsg_len nlmsg_error read_link
  read_message msgs rest =
      if nlmsg_type msgs == 3
      then answered none
      else if nlmsg_type msgs == 2
      then (if nlmsg_error msgs == 0 then rest else os_error (nlmsg_error msgs))
      else if nlmsg_type msgs == 16 && leb 32 (nlmsg_len msgs)
      then read_link msgs
      else rest

  -- The loop of `query_iface_xdp_prog_id` over what was received; a message takes 16 bytes at least.
  unfoldable pub read_messages : ℕ → Bytes → Query
  unfolding is_message read_message
  read_messages zero msgs = answered none
  read_messages (suc rounds) msgs =
      let rest = read_messages rounds (drop (nla_align (nlmsg_len msgs)) msgs) in
      if is_message msgs then read_message msgs rest else answered none

  unfoldable pub read_answer : Bytes → Query
  unfolding read_messages
  read_answer received = read_messages (length received) received

  -- The attributes of the request of `netlink_xdp_set`; a detach sends -1 for the program's descriptor.
  unfoldable pub xdp_attrs : Option ℕ → ℕ → Bytes
  unfolding push_nla_bytes to_le_bytes
  xdp_attrs prog_fd flags =
      let first = push_nla_bytes [] 1 (to_le_bytes 4 (fd_or_detach prog_fd)) in
      push_nla_bytes [] (ifla_xdp + 2 ^ 15)
        (if flags == 0 then first else push_nla_bytes first 3 (to_le_bytes 4 flags))

-- What `netlink_xdp_set` makes of the kernel's acknowledgement: the number of an error, or none.
unfoldable pub read_ack : Bytes → Option ℕ
unfolding nlmsg_type nlmsg_error
read_ack received =
    if leb 16 (length received) && nlmsg_type received == 2 && not (nlmsg_error received == 0)
    then some (nlmsg_error received)
    else none
