-- ===== src/Http/Tests.antt =====
-- Runs of the parsers on small heads, and each theorem at a concrete input.
use demiurge.Base.{
  ◌≡◌, refl, ◌↔◌, true, none, some, List, [], ◌∷◌, ◌++◌, length, Bytes, bytes, split, eq_ci,
  strip_prefix, trim, contains, ends_with, bytes_eq,
}
use demiurge.Http.{
  hdr_tenant, hdr_group, hdr_prefix_fp, hdr_prefix_content, header_value_ci, RequestIdentity,
  parse_request_identity, parse_prompt_tokens, parse_path_tokens, estimate_prompt_tokens,
  is_decode_only, parse_u64_maybe_hex, Read, chunk, failed, read_head,
}
use demiurge.Http.Identity.{
  Identifies, parse_request_identity_iff, parse_request_identity_from_body,
}

abbrev crlf : Bytes
crlf = 13 ∷ 10 ∷ []

abbrev head : Bytes
head =
    bytes "POST /long/7 HTTP/1.1"
    ++ crlf
    ++ bytes "X-Demiurge-Tokens:  300 "
    ++ crlf
    ++ bytes "X-Demiurge-Tenant: 0x1F"
    ++ crlf

tokens_300 : parse_prompt_tokens head ≡ some 300
unfolding parse_prompt_tokens split eq_ci trim
tokens_300 = refl

path_7 : parse_path_tokens head ≡ some 7
unfolding parse_path_tokens split strip_prefix
path_7 = refl

hex_31 : parse_u64_maybe_hex (bytes "0x1F") ≡ some 31
unfolding parse_u64_maybe_hex strip_prefix
hex_31 = refl

-- What follows the digits is ignored, unless the digits are hexadecimal.
junk_12 : parse_u64_maybe_hex (bytes "12junk") ≡ some 12
unfolding parse_u64_maybe_hex strip_prefix
junk_12 = refl

junk_hex : parse_u64_maybe_hex (bytes "0x12junk") ≡ none
unfolding parse_u64_maybe_hex strip_prefix
junk_hex = refl

probe : is_decode_only (bytes "GET /v1/models?x=1 HTTP/1.1") ≡ true
unfolding is_decode_only split eq_ci strip_prefix contains ends_with bytes_eq
probe = refl

abbrev identity_lines : Bytes
identity_lines =
    bytes "x-demiurge-tenant: 9"
    ++ crlf
    ++ bytes "x-demiurge-group: 8"
    ++ crlf
    ++ bytes "x-demiurge-prefix-fp: 0x7"

abbrev identity : RequestIdentity
identity = record { tenant = 9; group = 8; content_fp = 7 }

-- A plain request up to its blank line.
abbrev plain : Bytes
plain = bytes "POST / HTTP/1.1" ++ crlf ++ 13 ∷ []

-- The body of a plain request gives an identity.
identity_in_body : parse_request_identity length (plain ++ 10 ∷ identity_lines) ≡ some identity
unfolding parse_request_identity split eq_ci trim strip_prefix
identity_in_body = refl

parse_request_identity_iff_example :
    (parse_request_identity length identity_lines ≡ some identity)
    ↔ Identifies length identity_lines identity
parse_request_identity_iff_example = parse_request_identity_iff length identity_lines identity

plain_has_none :
    (header_value_ci plain hdr_tenant ≡ none)
    × (header_value_ci plain hdr_group ≡ none)
    × (header_value_ci plain hdr_prefix_fp ≡ none)
    × (header_value_ci plain hdr_prefix_content ≡ none)
unfolding header_value_ci split eq_ci
plain_has_none = (refl, refl, refl, refl)

parse_request_identity_from_body_example :
    parse_request_identity length (plain ++ 10 ∷ identity_lines)
    ≡ parse_request_identity length identity_lines
parse_request_identity_from_body_example =
    parse_request_identity_from_body length plain identity_lines plain_has_none.0 plain_has_none.1
      plain_has_none.2 plain_has_none.3

name_case : eq_ci (bytes "X-Demiurge-Tenant") hdr_tenant ≡ true
unfolding eq_ci
name_case = refl

estimate_300 : estimate_prompt_tokens head ≡ 300
unfolding estimate_prompt_tokens split eq_ci trim
estimate_300 = refl

-- Two reads, the second of which ends the head and carries the first byte of a body.
abbrev reads : List Read
reads = chunk (bytes "GET / HTTP/1.1" ++ 13 ∷ []) ∷ chunk (10 ∷ 13 ∷ 10 ∷ 65 ∷ []) ∷ failed ∷ []

reads-read : read_head reads ≡ some (bytes "GET / HTTP/1.1" ++ 13 ∷ 10 ∷ 13 ∷ 10 ∷ 65 ∷ [])
unfolding read_head contains strip_prefix
reads-read = refl
