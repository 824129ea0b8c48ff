-- ===== src/Http.antt =====
-- crates/demiurge-router/src/http.rs: the parsers of the request head, on its raw bytes. The keyed
-- hash of a prefix is a parameter, since BLAKE3 is not the program's.
pub mod Digits
pub mod Header
pub mod Field
pub mod Hex
pub mod Number
pub mod Identity
pub mod Head
mod Tests
use demiurge.Base.{
  ℕ, suc, ◌+◌, ◌-◌, ◌*◌, min, Bool, true, false, ◌&&◌, ◌||◌, not, Option, none, some, List, [], ◌∷◌,
  ◌++◌, ltb, leb, ◌==◌, if◌then◌else◌, length, get_or, take, drop, checked_add, checked_mul, Bytes,
  bytes, is_ascii_whitespace, is_ascii_digit, bytes_eq, eq_ci, split, strip_prefix, contains,
  ends_with, trim,
}
use demiurge.Cost.Params.{routing_short_context_tokens}

abbrev pub max_head : ℕ
max_head = 64 * 1024

abbrev pub hdr_tokens : Bytes
hdr_tokens = bytes "x-demiurge-tokens"

abbrev pub hdr_phase : Bytes
hdr_phase = bytes "x-demiurge-phase"

abbrev pub hdr_tenant : Bytes
hdr_tenant = bytes "x-demiurge-tenant"

abbrev pub hdr_group : Bytes
hdr_group = bytes "x-demiurge-group"

abbrev pub hdr_prefix_fp : Bytes
hdr_prefix_fp = bytes "x-demiurge-prefix-fp"

abbrev pub hdr_prefix_content : Bytes
hdr_prefix_content = bytes "x-demiurge-prefix-content"

pub trim_ascii_ws : Bytes → Bytes
trim_ascii_ws = trim is_ascii_whitespace

abbrev pub ascii_eq_ci : Bytes → Bytes → Bool
ascii_eq_ci = eq_ci

-- `strip_suffix(b"\r")`, or the line itself
pub strip_cr : Bytes → Bytes
strip_cr [] = []
strip_cr (x ∷ []) = if x == 13 then [] else x ∷ []
strip_cr (x ∷ y ∷ ys) = x ∷ strip_cr (y ∷ ys)

-- The value of one line, if it is a header of that name.
pub line_value : Bytes → Bytes → Option Bytes
unfolding trim_ascii_ws
line_value name line =
    if ltb (length name) (length line)
      && (get_or line (length name) 0 == b':' && ascii_eq_ci (take (length name) line) name)
    then some (trim_ascii_ws (drop (length name + 1) line))
    else none

-- The loop over the lines: the first that is such a header.
pub search_lines : Bytes → List Bytes → Option Bytes
unfolding strip_cr line_value
search_lines name [] = none
search_lines name (line ∷ lines) = elim (line_value name (strip_cr line)) [
  | none ↦ search_lines name lines
  | some value ↦ some value
]

-- The lines end at each line feed, and the last at the end. An empty last one, which the source
-- does not visit, is no header.
pub header_value_ci : Bytes → Bytes → Option Bytes
unfolding search_lines
header_value_ci head name = search_lines name (split (λ b. b == 10) head)

-- The loop over the digits: the number so far, and whether there was a digit.
pub digits_from : ℕ → Bool → Bytes → Option ℕ
digits_from n any [] = if any then some n else none
digits_from n any (b ∷ bs) = elim (is_ascii_digit b) [
  | false ↦ if any then some n else none
  | true ↦ elim (checked_mul n 10) [
    | none ↦ none
    | some m ↦ elim (checked_add m (b - b'0')) [ none ↦ none | some n' ↦ digits_from n' true bs ]
  ]
]

pub parse_u64_digits : Bytes → Option ℕ
unfolding digits_from
parse_u64_digits = digits_from 0 false

-- `char::to_digit(16)`
abbrev pub hex_digit : ℕ → Option ℕ
hex_digit b =
    if leb b'0' b && leb b b'9'
    then some (b - b'0')
    else if leb b'a' b && leb b b'f'
    then some (b - b'a' + 10)
    else if leb b'A' b && leb b b'F'
    then some (b - b'A' + 10)
    else none

-- The digits of `u64::from_str_radix(s, 16)`
pub hex_from : ℕ → Bytes → Option ℕ
hex_from n [] = some n
hex_from n (b ∷ bs) = elim (hex_digit b) [
  | none ↦ none
  | some d ↦ elim (checked_mul n 16) [
    | none ↦ none
    | some m ↦ elim (checked_add m d) [ none ↦ none | some n' ↦ hex_from n' bs ]
  ]
]

-- `u64::from_str_radix(s, 16)`, which takes a leading `+` and no empty text. Bytes that are not
-- UTF-8 are no digits, so that the check before it changes no result.
pub from_str_radix_16 : Bytes → Option ℕ
unfolding hex_from
from_str_radix_16 [] = none
from_str_radix_16 (b ∷ []) = hex_from 0 (b ∷ [])
from_str_radix_16 (b ∷ c ∷ bs) = if b == b'+' then hex_from 0 (c ∷ bs) else hex_from 0 (b ∷ c ∷ bs)

abbrev pub or_else {ℓ} : {A : Type ℓ} → Option A → Option A → Option A
or_else none y = y
or_else (some a) y = some a

unfoldable pub parse_u64_maybe_hex : Bytes → Option ℕ
unfolding from_str_radix_16 parse_u64_digits
parse_u64_maybe_hex bs =
    elim (or_else (strip_prefix (bytes "0x") bs) (strip_prefix (bytes "0X") bs)) [
      | none ↦ parse_u64_digits bs
      | some hex ↦ from_str_radix_16 hex
    ]

pub contains_subslice : Bytes → Bytes → Bool
contains_subslice hay needle = contains needle hay

infixl 5 ◌>>=◌
abbrev pub ◌>>=◌ {ℓ κ} : {A : Type ℓ} {B : Type κ} → Option A → (A → Option B) → Option B
none >>= f = none
some a >>= f = f a

pub parse_prompt_tokens : Bytes → Option ℕ
unfolding header_value_ci parse_u64_digits
parse_prompt_tokens head = header_value_ci head hdr_tokens >>= parse_u64_digits

-- `head.split(|&b| b == b'\r' || b == b'\n').next()`
pub first_line : Bytes → Bytes
first_line [] = []
first_line (b ∷ bs) = let rest = first_line bs in if b == 13 || b == 10 then [] else b ∷ rest

-- `split(|&b| b == b' ').filter(|p| !p.is_empty())`
pub words : List Bytes → List Bytes
words [] = []
words ([] ∷ ps) = words ps
words ((x ∷ p) ∷ ps) = (x ∷ p) ∷ words ps

pub request_line_parts : Bytes → Option (Bytes × Bytes)
unfolding first_line words
request_line_parts head = elim (words (split (λ b. b == 32) (first_line head))) [
  | [] ↦ none
  | method ∷ rest ↦ elim rest [ [] ↦ none | path ∷ _ ↦ some (method, path) ]
]

-- The two prefixes of a path that carry a token count, in turn.
pub path_tokens : Bytes → Option ℕ
unfolding parse_u64_digits
path_tokens path = elim (strip_prefix (bytes "/prefill/") path) [
  | some rest ↦ parse_u64_digits rest
  | none ↦ strip_prefix (bytes "/long/") path >>= parse_u64_digits
]

pub parse_path_tokens : Bytes → Option ℕ
unfolding request_line_parts path_tokens
parse_path_tokens head = request_line_parts head >>= λ parts. path_tokens parts.1

unfoldable pub estimate_prompt_tokens : Bytes → ℕ
unfolding parse_prompt_tokens parse_path_tokens
estimate_prompt_tokens head = elim (or_else (parse_prompt_tokens head) (parse_path_tokens head)) [
  | none ↦ routing_short_context_tokens + 1
  | some tokens ↦ tokens
]

pub record RequestIdentity : Type 0 where
  pub tenant : ℕ
  pub group : ℕ
  pub content_fp : ℕ

-- Whether the content header, where there is one, hashes to the fingerprint.
abbrev pub content_agrees : (Bytes → ℕ) → Option Bytes → ℕ → Bool
content_agrees fingerprint none fp = true
content_agrees fingerprint (some content) fp = fingerprint content == fp

unfoldable pub parse_request_identity : (Bytes → ℕ) → Bytes → Option RequestIdentity
unfolding header_value_ci parse_u64_maybe_hex
parse_request_identity fingerprint head = do
  tenant ← header_value_ci head hdr_tenant >>= parse_u64_maybe_hex
  group ← header_value_ci head hdr_group >>= parse_u64_maybe_hex
  fp ← header_value_ci head hdr_prefix_fp >>= parse_u64_maybe_hex
  if content_agrees fingerprint (header_value_ci head hdr_prefix_content) fp
      then some (record { tenant = tenant; group = group; content_fp = fp })
      else none

-- `path.split(|&b| b == b'?').next()`
pub before_query : Bytes → Bytes
before_query [] = []
before_query (b ∷ bs) = let rest = before_query bs in if b == b'?' then [] else b ∷ rest

pub is_admin_path : Bytes → Bool
is_admin_path path =
    ends_with (bytes "/models") path
    || ends_with (bytes "/version") path
    || bytes_eq path (bytes "/health")
    || bytes_eq path (bytes "/healthz")
    || bytes_eq path (bytes "/ready")
    || bytes_eq path (bytes "/readyz")
    || bytes_eq path (bytes "/metrics")

pub is_admin_probe_request : Bytes → Bool
unfolding request_line_parts before_query is_admin_path
is_admin_probe_request head = elim (request_line_parts head) [
  | none ↦ false
  | some (method, path) ↦
      if ascii_eq_ci method (bytes "POST") then false else is_admin_path (before_query path)
]

abbrev phase_is_decode : Option Bytes → Bool
phase_is_decode none = false
phase_is_decode (some v) = ascii_eq_ci v (bytes "decode")

unfoldable pub is_decode_only : Bytes → Bool
unfolding header_value_ci first_line contains_subslice is_admin_probe_request
is_decode_only head =
    phase_is_decode (header_value_ci head hdr_phase)
    || contains_subslice (first_line head) (bytes " /decode")
    || is_admin_probe_request head

-- What a `read` into the 1024-byte chunk gives: bytes, of which there are none at the end of the
-- stream, or an I/O error.
pub data Read : Type 0 where
  chunk : Bytes → Read
  failed : Read

-- The loop of `read_head`, on the reads that the stream gives in turn; a stream that gives no more
-- has ended.
pub read_from : Bytes → List Read → Option Bytes
read_from buf [] = some buf
read_from buf (failed ∷ reads) = none
read_from buf (chunk [] ∷ reads) = some buf
read_from buf (chunk (x ∷ xs) ∷ reads) =
    let n = length (x ∷ xs) in
    let buf' = buf ++ take (min n (max_head - length buf)) (x ∷ xs) in
    let rest = read_from buf' reads in
    if contains (13 ∷ 10 ∷ 13 ∷ 10 ∷ []) buf' || leb max_head (length buf') then some buf' else rest

unfoldable pub read_head : List Read → Option Bytes
unfolding read_from
read_head = read_from []
