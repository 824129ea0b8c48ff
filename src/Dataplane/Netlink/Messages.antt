-- ===== src/Dataplane/Netlink/Messages.antt =====
-- A link's message is read whole.
use demiurge.Base.{
  ℕ, suc, ◌+◌, ◌/◌, ◌%◌, ◌^◌, ◌≡◌, ◌≤◌, ◌<◌, refl, ap, ◌∙◌, true, none, ◌∷◌, ◌++◌, if◌then◌else◌,
  length, take, drop, arith, length-append, take-append_exact, drop-append_exact, Bytes,
}
use demiurge.Base.LittleEndian.{to_le_bytes, from_le_bytes}
use demiurge.Dataplane.Netlink.{
  nla_align, parse_xdp_prog_id, Query, answered, nlmsg_len, nlmsg_type, is_message, read_link,
  read_message, read_messages, read_answer,
}

-- A message of a link: its length, its type, the rest of the two headers, and the attributes.
abbrev pub link_message : Bytes → Bytes → Bytes
link_message headers attrs =
    to_le_bytes 4 (32 + length attrs) ++ (to_le_bytes 2 16 ++ (headers ++ attrs))

module _ (ifla_xdp : ℕ) where
  read_message-link :
      (msgs : Bytes) (rest : Query)
      → is_message msgs ≡ true
      → nlmsg_type msgs ≡ 16
      → 32 ≤ nlmsg_len msgs
      → (if is_message msgs then read_message ifla_xdp msgs rest else answered none)
        ≡ read_link ifla_xdp msgs
  unfolding read_message
  read_message-link msgs rest whole kind long = ground arith

  -- A link's message that states its whole length is answered with what is found among its attributes,
  -- whatever follows it in what was received.
  pub read_answer-link :
      (headers attrs more : Bytes)
      → length headers ≡ 26
      → length attrs < 2 ^ 16
      → read_answer ifla_xdp (link_message headers attrs ++ more)
        ≡ answered (parse_xdp_prog_id ifla_xdp attrs)
  unfolding read_answer read_messages to_le_bytes
  read_answer-link headers attrs more h lt =
      let n = 32 + length attrs in
      let front =
        n % 256
        ∷ n / 256 % 256
        ∷ n / 256 / 256 % 256
        ∷ n / 256 / 256 / 256 % 256
        ∷ 16
        ∷ 0
        ∷ headers in
      let msgs = link_message headers attrs ++ more in
      let stated : nlmsg_len msgs ≡ n = unfold nlmsg_len from_le_bytes in omega arith in
      let kind : nlmsg_type msgs ≡ 16 = unfold nlmsg_type from_le_bytes in refl in
      let long : n ≤ length msgs =
        omega (arith, length-append (headers ++ attrs) more, length-append headers attrs) in
      let whole : is_message msgs ≡ true = unfold is_message in rw stated (ground arith) in
      let body : drop 32 (take n msgs) ≡ attrs =
        ap (drop 32)
          (take-append_exact n (front ++ attrs) more (omega (arith, length-append headers attrs)))
        ∙ drop-append_exact 32 front attrs (omega arith) in
      let rest =
        read_messages ifla_xdp (suc (suc (suc (suc (suc (length ((headers ++ attrs) ++ more)))))))
          (drop (nla_align (nlmsg_len msgs)) msgs) in
      read_message-link msgs rest whole kind (omega (arith, stated))
      ∙ unfold read_link in rw stated (ap (λ b. answered (parse_xdp_prog_id ifla_xdp b)) body)
