-- ===== src/Dataplane/Netlink/Loops.antt =====
-- The loops over what the kernel sent, with no bound on their rounds: they end.
use demiurge.Base.{
  ℕ, zero, suc, ◌+◌, ◌*◌, ◌≡◌, ◌≤◌, refl, true, false, none, Option, not, ◌||◌, ◌&&◌, ◌==◌, leb,
  if◌then◌else◌, length, drop, arith, length-drop, Bytes, Bool-cases, ◌⊎◌, inl, inr,
}
use demiurge.Dataplane.Netlink.{
  nla_align, nla_len, nla_type, nla_payload, is_readable, nla_next, XdpIds, note_attr, note_attrs,
  parse_xdp_nested, find_xdp, parse_xdp_prog_id, Query, answered, os_error, nlmsg_len, nlmsg_type,
  nlmsg_error, is_message, read_link, read_message, read_messages, read_answer,
}

-- A loop whose round, from a state, goes on with another or ends with a result: from this state it ends
-- with this result after so many rounds that go on. A loop that goes round for ever has no such number.
pub data Ends {S R : Type 0} (round : S → S ⊎ R) : ℕ → S → R → Type 0 where
  exits : (s : S) (r : R) → round s ≡ inr r → Ends round zero s r
  goes_on : (k : ℕ) (s t : S) (r : R) → round s ≡ inl t → Ends round k t r → Ends round (suc k) s r

-- One round of the loop of `parse_xdp_nested`.
unfoldable pub note_round : Bytes × XdpIds → (Bytes × XdpIds) ⊎ XdpIds
unfolding is_readable nla_next nla_type nla_payload note_attr
note_round (attrs, ids) =
    if is_readable attrs
    then inl (nla_next attrs, note_attr (nla_type attrs) (nla_payload attrs) ids)
    else inr ids

-- From a state over these bytes the loop ends with the result, and each of its rounds that goes on takes
-- so many bytes at least.
abbrev pub EndsWithin : {S R : Type 0} → (S → S ⊎ R) → ℕ → Bytes → S → R → Type 0
EndsWithin round size sent s r = (k : ℕ) × Ends round k s r × (size * k ≤ length sent)

-- A step over a header that states at least as much as it takes itself leaves less.
shrinks : (attrs : Bytes) → is_readable attrs ≡ true → length (nla_next attrs) + 4 ≤ length attrs
unfolding is_readable nla_next
shrinks attrs h = ground (arith, length-drop (nla_align (nla_len attrs)) attrs)

message_shrinks :
    (msgs : Bytes)
    → is_message msgs ≡ true
    → length (drop (nla_align (nlmsg_len msgs)) msgs) + 16 ≤ length msgs
unfolding is_message
message_shrinks msgs h = ground (arith, length-drop (nla_align (nlmsg_len msgs)) msgs)

empty_unreadable : (attrs : Bytes) → length attrs ≤ 0 → is_readable attrs ≡ false
unfolding is_readable
empty_unreadable attrs h = ground arith

no_message : (msgs : Bytes) → length msgs ≤ 0 → is_message msgs ≡ false
unfolding is_message
no_message msgs h = ground arith

ends_at :
    {S R : Type 0} (round : S → S ⊎ R) (size : ℕ) (sent : Bytes) (s : S) (r : R)
    → round s ≡ inr r
    → EndsWithin round size sent s r
ends_at round size sent s r e = (0, exits s r e, omega arith)

after_round :
    {S R : Type 0} (round : S → S ⊎ R) (size : ℕ) (sent left : Bytes) (s t : S) (r : R)
    → round s ≡ inl t
    → size + length left ≤ length sent
    → EndsWithin round size left t r
    → EndsWithin round size sent s r
after_round round size sent left s t r e less (k, w, fits) =
    (suc k, goes_on k s t r e w, ground arith)

note_attrs-ends :
    (rounds : ℕ) (attrs : Bytes) (ids : XdpIds)
    → length attrs ≤ rounds
    → EndsWithin note_round 4 attrs (attrs, ids) (note_attrs rounds attrs ids)
unfolding note_attrs note_round
note_attrs-ends zero attrs ids h =
    ends_at note_round 4 attrs (attrs, ids) ids (rw (empty_unreadable attrs h) refl)
note_attrs-ends (suc rounds) attrs ids h = elim (Bool-cases (is_readable attrs)) [
  | inr e ↦ rw e (ends_at note_round 4 attrs (attrs, ids) ids (rw e refl))
  | inl e ↦
      let less = shrinks attrs e in
      let ids' = note_attr (nla_type attrs) (nla_payload attrs) ids in
      rw e (
        after_round note_round 4 attrs (nla_next attrs) (attrs, ids) (nla_next attrs, ids')
          (note_attrs rounds (nla_next attrs) ids') (rw e refl) (omega arith)
          (note_attrs-ends rounds (nla_next attrs) ids' (omega arith)))
]

module _ (ifla_xdp : ℕ) where
  -- One round of the loop of `parse_xdp_prog_id`.
  unfoldable pub find_round : Bytes → Bytes ⊎ Option ℕ
  unfolding is_readable nla_next nla_type nla_payload parse_xdp_nested
  find_round attrs =
      if not (is_readable attrs)
      then inr none
      else if nla_type attrs == ifla_xdp
      then inr (parse_xdp_nested (nla_payload attrs))
      else inl (nla_next attrs)

  -- One round of the loop of `query_iface_xdp_prog_id` over what was received.
  unfoldable pub message_round : Bytes → Bytes ⊎ Query
  unfolding is_message nlmsg_type nlmsg_len nlmsg_error read_link
  message_round msgs =
      let next = drop (nla_align (nlmsg_len msgs)) msgs in
      if not (is_message msgs) || nlmsg_type msgs == 3
      then inr (answered none)
      else if nlmsg_type msgs == 2
      then (if nlmsg_error msgs == 0 then inl next else inr (os_error (nlmsg_error msgs)))
      else if nlmsg_type msgs == 16 && leb 32 (nlmsg_len msgs)
      then inr (read_link ifla_xdp msgs)
      else inl next

  find_xdp-ends :
      (rounds : ℕ) (attrs : Bytes)
      → length attrs ≤ rounds
      → EndsWithin find_round 4 attrs attrs (find_xdp ifla_xdp rounds attrs)
  unfolding find_xdp find_round
  find_xdp-ends zero attrs h =
      ends_at find_round 4 attrs attrs none (rw (empty_unreadable attrs h) refl)
  find_xdp-ends (suc rounds) attrs h = elim (Bool-cases (is_readable attrs)) [
    | inr e ↦ rw e (ends_at find_round 4 attrs attrs none (rw e refl))
    | inl e ↦ elim (Bool-cases (nla_type attrs == ifla_xdp)) [
      | inl f ↦
          rw (e, f)
            (ends_at find_round 4 attrs attrs (parse_xdp_nested (nla_payload attrs))
              (rw (e, f) refl))
      | inr f ↦
          let less = shrinks attrs e in
          rw (e, f)
            (after_round find_round 4 attrs (nla_next attrs) attrs (nla_next attrs)
              (find_xdp ifla_xdp rounds (nla_next attrs)) (rw (e, f) refl) (omega arith)
              (find_xdp-ends rounds (nla_next attrs) (omega arith)))
    ]
  ]

  -- A round either ends with what it reads, or goes on with the messages that follow.
  message_round-cases :
      (msgs : Bytes) (rest : Query)
      → is_message msgs ≡ true
      → (message_round msgs ≡ inr (read_message ifla_xdp msgs rest))
        ⊎ ((message_round msgs ≡ inl (drop (nla_align (nlmsg_len msgs)) msgs))
            × (read_message ifla_xdp msgs rest ≡ rest))
  unfolding message_round read_message
  message_round-cases msgs rest h = elim (Bool-cases (nlmsg_type msgs == 3)) [
    | inl a ↦ inl (rw (h, a) refl)
    | inr a ↦ elim (Bool-cases (nlmsg_type msgs == 2)) [
      | inl b ↦ elim (Bool-cases (nlmsg_error msgs == 0)) [
        | inl c ↦ inr (rw (h, a, b, c) refl, rw (a, b, c) refl)
        | inr c ↦ inl (rw (h, a, b, c) refl)
      ]
      | inr b ↦ elim (Bool-cases (nlmsg_type msgs == 16 && leb 32 (nlmsg_len msgs))) [
        | inl c ↦ inl (rw (h, a, b, c) refl)
        | inr c ↦ inr (rw (h, a, b, c) refl, rw (a, b, c) refl)
      ]
    ]
  ]

  read_messages-ends :
      (rounds : ℕ) (msgs : Bytes)
      → length msgs ≤ rounds
      → EndsWithin message_round 16 msgs msgs (read_messages ifla_xdp rounds msgs)
  unfolding read_messages
  read_messages-ends zero msgs h =
      ends_at message_round 16 msgs msgs (answered none)
        (unfold message_round in rw (no_message msgs h) refl)
  read_messages-ends (suc rounds) msgs h =
      let next = drop (nla_align (nlmsg_len msgs)) msgs in
      let rest = read_messages ifla_xdp rounds next in
      elim (Bool-cases (is_message msgs)) [
        | inr e ↦
            rw e (
              ends_at message_round 16 msgs msgs (answered none)
                (unfold message_round in rw e refl))
        | inl e ↦ elim (message_round-cases msgs rest e) [
          | inl stops ↦
              rw e (ends_at message_round 16 msgs msgs (read_message ifla_xdp msgs rest) stops)
          | inr (on, same) ↦
              let less = message_shrinks msgs e in
              rw (e, same)
                (after_round message_round 16 msgs next msgs next rest on (omega arith)
                  (read_messages-ends rounds next (omega arith)))
        ]
      ]

  -- Whatever the kernel sends, the loops over its messages and over its attributes, with no bound on
  -- their rounds, end, and with the results that the model gives: the loop over the messages goes on at
  -- most a sixteenth as many times as there are bytes, and the two over attributes, from any ids in the
  -- nested one, at most a quarter as many times.
  pub loops_end :
      (sent : Bytes) (ids : XdpIds)
      → EndsWithin message_round 16 sent sent (read_answer ifla_xdp sent)
        × EndsWithin find_round 4 sent sent (parse_xdp_prog_id ifla_xdp sent)
        × EndsWithin note_round 4 sent (sent, ids) (note_attrs (length sent) sent ids)
  unfolding read_answer parse_xdp_prog_id
  loops_end sent ids = (
    read_messages-ends (length sent) sent (omega arith),
    find_xdp-ends (length sent) sent (omega arith),
    note_attrs-ends (length sent) sent ids (omega arith),
  )
