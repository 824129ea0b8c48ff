-- ===== src/Dataplane/Netlink/Tests.antt =====
-- What the kernel sent of a link, read.
use demiurge.Base.{ℕ, ◌≡◌, refl, ◌^◌, List, [], ◌∷◌, Bytes, bytes, none, drop, inl, inr, ◌+◌, arith}
use demiurge.Base.LittleEndian.{to_le_bytes}
use demiurge.Dataplane.Netlink.{
  answered, no_ids, parse_xdp_prog_id, xdp_id, note_attrs, read_answer, push_nla_bytes, pad,
  xdp_attrs,
}
use demiurge.Dataplane.Netlink.RoundTrip.{push_all, note_all, parse_xdp_prog_id-push_all}
use demiurge.Dataplane.Netlink.Loops.{EndsWithin, message_round, find_round, note_round, loops_end}

-- The driver's program 21, at a link that has a name.
abbrev nested : List (ℕ × Bytes)
nested = (5, 21 ∷ 0 ∷ 0 ∷ 0 ∷ []) ∷ (2, 1 ∷ []) ∷ (4, 21 ∷ 0 ∷ 0 ∷ 0 ∷ []) ∷ []

parse_xdp_prog_id-push_all_example :
    parse_xdp_prog_id 43
      (push_all ((3, bytes "lo") ∷ (43 + 2 ^ 15, push_all nested []) ∷ (7, 0 ∷ []) ∷ []) [])
    ≡ xdp_id (note_all nested no_ids)
unfolding push_all push_nla_bytes pad to_le_bytes
parse_xdp_prog_id-push_all_example =
    parse_xdp_prog_id-push_all 43 ((3, bytes "lo") ∷ []) ((7, 0 ∷ []) ∷ []) nested (43 + 2 ^ 15)
      (ground arith, tt) refl
      (
        (ground arith, ground arith),
        ((ground arith, ground arith), ((ground arith, ground arith), tt)),
      )
      (
        (ground arith, ground arith),
        ((ground arith, ground arith), ((ground arith, ground arith), tt)),
      )

-- A message that is neither, and a header that states no length, which ends the loops.
abbrev stray : Bytes
stray =
    16 ∷ 0 ∷ 0 ∷ 0 ∷ 1 ∷ 0 ∷ 0 ∷ 0 ∷ 0 ∷ 0 ∷ 0 ∷ 0 ∷ 0 ∷ 0 ∷ 0 ∷ 0 ∷ 0 ∷ 0 ∷ 0 ∷ 0 ∷ 0 ∷ 0 ∷ 0 ∷ 0
    ∷ 0 ∷ 0 ∷ 0 ∷ 0 ∷ 0 ∷ 0 ∷ 0 ∷ 0 ∷ []

stray_goes_on : message_round 43 stray ≡ inl (drop 16 stray)
unfolding message_round
stray_goes_on = refl

stray_ends : message_round 43 (drop 16 stray) ≡ inr (answered none)
unfolding message_round
stray_ends = refl

loops_end_example :
    EndsWithin (message_round 43) 16 stray stray (read_answer 43 stray)
    × EndsWithin (find_round 43) 4 stray stray (parse_xdp_prog_id 43 stray)
    × EndsWithin note_round 4 stray (stray, no_ids) (note_attrs 32 stray no_ids)
loops_end_example = loops_end 43 stray no_ids

-- A detach in the generic mode.
detach_request :
    xdp_attrs 43 none 2
    ≡ 20 ∷ 0 ∷ 43 ∷ 128 ∷ 8 ∷ 0 ∷ 1 ∷ 0 ∷ 255 ∷ 255 ∷ 255 ∷ 255 ∷ 8 ∷ 0 ∷ 3 ∷ 0 ∷ 2 ∷ 0 ∷ 0 ∷ 0 ∷ []
unfolding xdp_attrs push_nla_bytes pad to_le_bytes
detach_request = refl
