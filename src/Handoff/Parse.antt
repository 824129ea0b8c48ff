-- ===== src/Handoff/Parse.antt =====
-- `parse_prefill_handoff`: the head of the response alone counts, and what it yields.
use demiurge.Base.{
  ℕ, ◌≤◌, ◌<◌, ◌≡◌, refl, true, Option, none, some, List, [], ◌∷◌, ◌++◌, String, length, arith,
  Bytes, starts_with, strip_prefix, contains, Option-cases, Bool-cases, inl, inr, map, lower, bytes,
  trim,
}
use demiurge.Base.Utf8.{from_utf8_lossy, is_whitespace}
use demiurge.Handoff.{
  HandoffDescriptor, header_block, lines, from_raw, bind_handle, parse_u64, read_line, read_lines,
  describe, parse_prefill_handoff,
}

abbrev pub blank_line : Bytes
blank_line = 13 ∷ 10 ∷ 13 ∷ 10 ∷ []

starts_with-append :
    (p xs ys : Bytes) → length p ≤ length xs → starts_with p (xs ++ ys) ≡ starts_with p xs
unfolding strip_prefix
starts_with-append [] xs ys h = refl
starts_with-append (c ∷ p) [] ys h = absurd (omega arith)
starts_with-append (c ∷ p) (x ∷ xs) ys h = ground (arith, starts_with-append p xs ys)

starts_with-length : (p xs : Bytes) → starts_with p xs ≡ true → length p ≤ length xs
unfolding strip_prefix
starts_with-length [] xs h = omega arith
starts_with-length (c ∷ p) [] h = cc
starts_with-length (c ∷ p) (x ∷ xs) h = ground (arith, starts_with-length p xs)

contains-length : (p xs : Bytes) → contains p xs ≡ true → length p ≤ length xs
unfolding contains
contains-length p [] h = starts_with-length p [] h
contains-length p (x ∷ xs) h = elim (Bool-cases (starts_with p (x ∷ xs))) [
  | inl e ↦ starts_with-length p (x ∷ xs) e
  | inr e ↦ ground (arith, contains-length p xs)
]

-- Nothing after a blank line is part of the header block.
header_block-append :
    (h body : Bytes) → contains blank_line h ≡ true → header_block (h ++ body) ≡ header_block h
unfolding header_block contains
header_block-append [] body e = absurd (omega (arith, starts_with-length blank_line [] e))
header_block-append (x ∷ xs) body e = elim (Bool-cases (starts_with blank_line (x ∷ xs))) [
  | inl at_blank ↦ rw (
    starts_with-append blank_line (x ∷ xs) body (starts_with-length blank_line (x ∷ xs) at_blank),
    at_blank,
  )
  | inr later ↦
      let in_rest : contains blank_line xs ≡ true = ground arith in
      rw (
        starts_with-append blank_line (x ∷ xs) body
            (omega (arith, contains-length blank_line xs in_rest)),
        later,
        header_block-append xs body in_rest,
      )
]

-- The body of a response cannot give, change or hide the hand-off: whatever follows a head that
-- ends with a blank line, the same descriptor is parsed.
pub parse_prefill_handoff-append :
    (head body : Bytes) (request_id : ℕ) (source_label : String)
    → contains blank_line head ≡ true
    → parse_prefill_handoff (head ++ body) request_id source_label
      ≡ parse_prefill_handoff head request_id source_label
unfolding parse_prefill_handoff
parse_prefill_handoff-append head body request_id source_label h =
    rw (header_block-append head body h)

-- No handle, or one that is not 0.
abbrev NonZero : Option ℕ → Type 0
NonZero none = Unit
NonZero (some h) = 0 < h

from_raw-NonZero : (raw : ℕ) → NonZero (from_raw raw)
unfolding from_raw
from_raw-NonZero raw = ground arith

bind_handle-NonZero : (raw : Option ℕ) → NonZero (bind_handle raw)
bind_handle-NonZero none = tt
bind_handle-NonZero (some raw) = from_raw-NonZero raw

read_line-NonZero :
    (found : Option ℕ × Option ℕ) (line : List ℕ)
    → NonZero found.0
    → NonZero (read_line found line).0
unfolding read_line
read_line-NonZero (h, n) line nz =
    elim (Option-cases (strip_prefix (bytes "x-demiurge-kv-handle:") (map lower line))) [
      | inl e ↦ elim (Option-cases (strip_prefix (bytes "x-demiurge-kv-bytes:") (map lower line))) [
        | inl e' ↦ ground arith
        | inr (rest, e') ↦ ground arith
      ]
      | inr (rest, e) ↦ ground (arith, bind_handle-NonZero (parse_u64 (trim is_whitespace rest)))
    ]

read_lines-NonZero :
    (found : Option ℕ × Option ℕ) (ls : List (List ℕ))
    → NonZero found.0
    → NonZero (read_lines found ls).0
unfolding read_lines
read_lines-NonZero found [] nz = nz
read_lines-NonZero found (l ∷ ls) nz =
    read_lines-NonZero (read_line found l) ls (read_line-NonZero found l nz)

describe_lem :
    (request_id : ℕ) (source_label : String) (found : Option ℕ × Option ℕ) {d : HandoffDescriptor}
    → NonZero found.0
    → describe request_id source_label found ≡ some d
    → (0 < d.kv_handle)
      × (d.request_id ≡ request_id)
      × (d.source_label ≡ source_label)
      × (d.decode_label ≡ none)
unfolding describe
describe_lem request_id source_label (none, n) nz e = cc
describe_lem request_id source_label (some h, none) nz e = cc
describe_lem request_id source_label (some h, some n) nz e = ground arith

-- A parsed hand-off has a handle that is not 0, whatever the backend answered, belongs to the request
-- and the prefill peer it was parsed for, and names no decode peer yet.
pub parse_prefill_handoff_lem :
    (response : Bytes) (request_id : ℕ) (source_label : String) (d : HandoffDescriptor)
    → parse_prefill_handoff response request_id source_label ≡ some d
    → (0 < d.kv_handle)
      × (d.request_id ≡ request_id)
      × (d.source_label ≡ source_label)
      × (d.decode_label ≡ none)
unfolding parse_prefill_handoff
parse_prefill_handoff_lem response request_id source_label d e =
    describe_lem request_id source_label
      (read_lines (none, none) (lines (from_utf8_lossy (header_block response))))
      (read_lines-NonZero (none, none) (lines (from_utf8_lossy (header_block response))) tt) e
