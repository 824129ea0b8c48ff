-- ===== src/Handoff.antt =====
-- crates/demiurge-handoff: the KV hand-off from prefill to decode, its headers, its registry and the
-- transports that need no floating point. The registry's three mutexes are taken one after the
-- other within a call; a call is one step here. A `Duration` is a number of nanoseconds.
pub mod Parse
pub mod Registry
pub mod Modeled
mod Tests
use demiurge.Base.{
  ℕ, suc, ◌+◌, ◌-◌, ◌*◌, ◌/◌, min, Bool, true, false, ◌&&◌, not, Option, none, some, List, [], ◌∷◌,
  ◌++◌, String, Map, nat_key, map, ltb, leb, ◌==◌, if◌then◌else◌, length, get_or, take, pop_front,
  sort, u64_max, checked_add, checked_mul, Bytes, bytes, is_ascii_digit, lower, strip_prefix,
  starts_with, trim,
}
use demiurge.Base.Float.{mul_floor}
use demiurge.Base.Maps.{lookup, insert, remove}
use demiurge.Base.Utf8.{from_utf8_lossy, is_whitespace}

abbrev pub transfer_samples : ℕ
transfer_samples = 1024

-- `KvHandle::from_raw`: a handle is not 0.
unfoldable pub from_raw : ℕ → Option ℕ
from_raw raw = if raw == 0 then none else some raw

pub record HandoffDescriptor : Type 0 where
  pub request_id : ℕ
  pub kv_handle : ℕ
  pub byte_len : ℕ
  pub source_label : String
  pub decode_label : Option String

unfoldable pub is_valid : HandoffDescriptor → Bool
is_valid d = not (d.kv_handle == 0) && ltb 0 d.byte_len

-- The response up to and with the first blank line, or all of it.
unfoldable pub header_block : Bytes → Bytes
header_block [] = []
header_block (x ∷ xs) =
    let rest = header_block xs in
    if starts_with (13 ∷ 10 ∷ 13 ∷ 10 ∷ []) (x ∷ xs) then 13 ∷ 10 ∷ 13 ∷ 10 ∷ [] else x ∷ rest

cons_line : ℕ → List (List ℕ) → List (List ℕ)
cons_line c [] = (c ∷ []) ∷ []
cons_line c (l ∷ ls) = (c ∷ l) ∷ ls

-- `str::lines`: a line ends with a line feed, or a carriage return and a line feed, or with the text.
unfoldable pub lines : List ℕ → List (List ℕ)
unfolding cons_line
lines [] = []
lines (c ∷ []) = if c == 10 then [] ∷ [] else (c ∷ []) ∷ []
lines (c ∷ d ∷ cs) =
    let rest = lines (d ∷ cs) in
    if c == 10 then [] ∷ rest else if c == 13 && d == 10 then rest else cons_line c rest

-- The digits of `str::parse::<u64>`
unfoldable pub parse_from : ℕ → List ℕ → Option ℕ
parse_from n [] = some n
parse_from n (c ∷ cs) = elim (is_ascii_digit c) [
  | false ↦ none
  | true ↦ elim (checked_mul n 10) [
    | none ↦ none
    | some m ↦ elim (checked_add m (c - b'0')) [ none ↦ none | some n' ↦ parse_from n' cs ]
  ]
]

-- `str::parse::<u64>`, which takes a leading `+` and no empty text.
unfoldable pub parse_u64 : List ℕ → Option ℕ
unfolding parse_from
parse_u64 [] = none
parse_u64 (c ∷ []) = parse_from 0 (c ∷ [])
parse_u64 (c ∷ d ∷ cs) = if c == b'+' then parse_from 0 (d ∷ cs) else parse_from 0 (c ∷ d ∷ cs)

abbrev bind_handle : Option ℕ → Option ℕ
bind_handle none = none
bind_handle (some raw) = from_raw raw

-- One line of the loop, on the handle and the length found so far.
unfoldable pub read_line : Option ℕ × Option ℕ → List ℕ → Option ℕ × Option ℕ
unfolding parse_u64 from_raw
read_line (kv_handle, byte_len) line =
    let low = map lower line in
    elim (strip_prefix (bytes "x-demiurge-kv-handle:") low) [
      | some rest ↦ (bind_handle (parse_u64 (trim is_whitespace rest)), byte_len)
      | none ↦ elim (strip_prefix (bytes "x-demiurge-kv-bytes:") low) [
        | some rest ↦ (kv_handle, parse_u64 (trim is_whitespace rest))
        | none ↦ (kv_handle, byte_len)
      ]
    ]

unfoldable pub read_lines : Option ℕ × Option ℕ → List (List ℕ) → Option ℕ × Option ℕ
unfolding read_line
read_lines found [] = found
read_lines found (l ∷ ls) = read_lines (read_line found l) ls

-- The descriptor, if both were found.
unfoldable pub describe : ℕ → String → Option ℕ × Option ℕ → Option HandoffDescriptor
describe request_id source_label (none, byte_len) = none
describe request_id source_label (some h, none) = none
describe request_id source_label (some h, some n) = some (record {
  request_id = request_id;
  kv_handle = h;
  byte_len = n;
  source_label = source_label;
  decode_label = none;
})

unfoldable pub parse_prefill_handoff : Bytes → ℕ → String → Option HandoffDescriptor
unfolding header_block lines read_lines describe
parse_prefill_handoff response request_id source_label =
    describe request_id source_label
      (read_lines (none, none) (lines (from_utf8_lossy (header_block response))))

pub record HandoffTransferMetrics : Type 0 where
  pub count : ℕ
  pub bytes_p50 : ℕ
  pub bytes_p99 : ℕ
  pub wall_us_p50 : ℕ
  pub wall_us_p99 : ℕ

-- `p` is a double, as a numerator and a power of two.
pub percentile : List ℕ → ℕ × ℕ → ℕ
percentile [] p = 0
percentile (x ∷ xs) p =
    get_or (x ∷ xs) (min (mul_floor p.0 p.1 (length (x ∷ xs))) (length (x ∷ xs) - 1)) 0

pub record HandoffRegistry : Type 0 where
  pub inner : Map ℕ HandoffDescriptor
  pub transfer_bytes : List ℕ
  pub transfer_wall_us : List ℕ

unfoldable pub new : HandoffRegistry
new = record { inner = []; transfer_bytes = []; transfer_wall_us = [] }

unfoldable pub publish : HandoffDescriptor → HandoffRegistry → HandoffRegistry
unfolding is_valid
publish desc r =
    if not (is_valid desc) then r else record r { inner = insert desc.request_id desc r.inner }

pub get : ℕ → HandoffRegistry → Option HandoffDescriptor
get request_id r = lookup request_id r.inner

-- `take`, the consumption of the artifact by the decode path
pub take_handoff : ℕ → HandoffRegistry → Option HandoffDescriptor × HandoffRegistry
take_handoff request_id r =
    (lookup request_id r.inner, record r { inner = remove request_id r.inner })

abbrev pub push_sample : ℕ → List ℕ → List ℕ
push_sample x xs = (if leb transfer_samples (length xs) then pop_front xs else xs) ++ x ∷ []

unfoldable pub record_transfer : ℕ → ℕ → HandoffRegistry → HandoffRegistry
record_transfer byte_count wall r = if byte_count == 0 then r else record r {
  transfer_bytes = push_sample byte_count r.transfer_bytes;
  transfer_wall_us = push_sample (min (wall / 1000) u64_max) r.transfer_wall_us;
}

-- 0.50 and 0.99
abbrev p50 : ℕ × ℕ
p50 = (1, 1)

abbrev p99 : ℕ × ℕ
p99 = (4458563631096791, 52)

pub transfer_metrics : HandoffRegistry → HandoffTransferMetrics
unfolding percentile
transfer_metrics r = elim r.transfer_bytes [
  | [] ↦ record { count = 0; bytes_p50 = 0; bytes_p99 = 0; wall_us_p50 = 0; wall_us_p99 = 0 }
  | b ∷ bs ↦
      let sizes = sort (b ∷ bs) in
      let walls = sort r.transfer_wall_us in
      record {
        count = length sizes;
        bytes_p50 = percentile sizes p50;
        bytes_p99 = percentile sizes p99;
        wall_us_p50 = percentile walls p50;
        wall_us_p99 = percentile walls p99;
      }
]

pub record TransferOutcome : Type 0 where
  pub transferred : ℕ
  pub wall : ℕ

-- The two transports that only pass on what they are given.
pub data HandoffTransport : Type 0 where
  header_passthrough : HandoffTransport
  mock_rdma : ℕ → HandoffTransport

unfoldable pub transfer : HandoffTransport → HandoffDescriptor → ℕ → TransferOutcome
transfer header_passthrough desc prefill_wall = record {
  transferred = desc.byte_len;
  wall = prefill_wall;
}
transfer (mock_rdma latency_us) desc prefill_wall = record {
  transferred = desc.byte_len;
  wall = latency_us * 1000;
}
