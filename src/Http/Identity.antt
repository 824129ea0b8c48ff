-- ===== src/Http/Identity.antt =====
-- What `parse_request_identity` accepts, and where it takes it from.
use demiurge.Base.{
  ℕ, ◌+◌, ◌≤◌, ◌≡◌, List, split, ◌==◌, ap, refl, sym, ◌∙◌, ◌⊎◌, inl, inr, ◌↔◌, Option, none, some,
  ◌∷◌, ◌++◌, arith, Bytes, if◌then◌else◌,
}
use demiurge.Cost.Params.{routing_short_context_tokens}
use demiurge.Http.{
  ◌>>=◌, or_else, hdr_tenant, hdr_group, hdr_prefix_fp, hdr_prefix_content, header_value_ci,
  parse_u64_maybe_hex, RequestIdentity, content_agrees, parse_request_identity, parse_prompt_tokens,
  parse_path_tokens, estimate_prompt_tokens,
}
use demiurge.Http.Field.{FirstField, header_value_ci_iff}
use demiurge.Http.Number.{IsNumber, parse_u64_maybe_hex_iff}
use demiurge.Http.Header.{header_value_ci-append}

-- The parser of a number in a header.
abbrev pub header_number : Bytes → Bytes → Option ℕ
header_number head name = header_value_ci head name >>= parse_u64_maybe_hex

-- All lines of the text, past the blank line that ends the head too.
abbrev pub lines : Bytes → List Bytes
lines text = split (λ b. b == 10) text

-- The first line that is a field of this name has this number for its value.
pub record NumberField (text name : Bytes) (n : ℕ) : Type 0 where
  pub value : Bytes
  pub first : FirstField name value (lines text)
  pub is_number : IsNumber value n

-- What an identity asks of a text: the three numbers, and a content that hashes to the fingerprint if
-- there is one.
pub record Identifies (fingerprint : Bytes → ℕ) (text : Bytes) (id : RequestIdentity) : Type 0 where
  pub has_tenant : NumberField text hdr_tenant id.tenant
  pub has_group : NumberField text hdr_group id.group
  pub has_fp : NumberField text hdr_prefix_fp id.content_fp
  pub verified :
      (content : Bytes)
      → FirstField hdr_prefix_content content (lines text)
      → fingerprint content ≡ id.content_fp

bind-some :
    (o : Option Bytes) (f : Bytes → Option ℕ) (n : ℕ)
    → (o >>= f) ≡ some n
    → (value : Bytes) × (o ≡ some value) × (f value ≡ some n)
bind-some none f n h = cc
bind-some (some value) f n h = (value, refl, h)

NumberField-header_number :
    (text name : Bytes) (n : ℕ) → header_number text name ≡ some n → NumberField text name n
NumberField-header_number text name n h =
    let (value, found, parsed) = bind-some (header_value_ci text name) parse_u64_maybe_hex n h in
    record {
      value = value;
      first = (header_value_ci_iff name value text).0 found;
      is_number = (parse_u64_maybe_hex_iff value n).0 parsed;
    }

header_number-NumberField :
    (text name : Bytes) (n : ℕ) → NumberField text name n → header_number text name ≡ some n
header_number-NumberField text name n f =
    ap (λ o. o >>= parse_u64_maybe_hex) ((header_value_ci_iff name f.value text).1 f.first)
    ∙ (parse_u64_maybe_hex_iff f.value n).1 f.is_number

-- The last steps of the parser, on what the headers gave.
abbrev assemble :
    (Bytes → ℕ) → Option ℕ → Option ℕ → Option ℕ → Option Bytes → Option RequestIdentity
assemble fingerprint t g f c = do
  tenant ← t
  group ← g
  fp ← f
  if content_agrees fingerprint c fp
      then some (record { tenant = tenant; group = group; content_fp = fp })
      else none

assemble-some :
    (fingerprint : Bytes → ℕ) (t g f : Option ℕ) (c : Option Bytes) (id : RequestIdentity)
    → assemble fingerprint t g f c ≡ some id
    → (t ≡ some id.tenant)
      × (g ≡ some id.group)
      × (f ≡ some id.content_fp)
      × ((content : Bytes) → c ≡ some content → fingerprint content ≡ id.content_fp)
assemble-some fingerprint (some t) (some g) (some f) none id h =
    (ground arith, ground arith, ground arith, λ content e. cc)
assemble-some fingerprint (some t) (some g) (some f) (some c) id h =
    (ground arith, ground arith, ground arith, λ content e. ground arith)
assemble-some fingerprint none g f c id h = cc
assemble-some fingerprint (some t) none f c id h = cc
assemble-some fingerprint (some t) (some g) none c id h = cc

some-assemble :
    (fingerprint : Bytes → ℕ) (t g f : Option ℕ) (c : Option Bytes) (id : RequestIdentity)
    → t ≡ some id.tenant
    → g ≡ some id.group
    → f ≡ some id.content_fp
    → ((content : Bytes) → c ≡ some content → fingerprint content ≡ id.content_fp)
    → assemble fingerprint t g f c ≡ some id
some-assemble fingerprint t g f none id et eg ef v = rw (et, eg, ef)
some-assemble fingerprint t g f (some c) id et eg ef v = rw (et, eg, ef) (ground (arith, v c refl))

parse-assemble :
    (fingerprint : Bytes → ℕ) (head : Bytes)
    → parse_request_identity fingerprint head
      ≡ assemble fingerprint
          (header_number head hdr_tenant)
          (header_number head hdr_group)
          (header_number head hdr_prefix_fp)
          (header_value_ci head hdr_prefix_content)
unfolding parse_request_identity
parse-assemble fingerprint head = refl

module _ (fingerprint : Bytes → ℕ) (head : Bytes) where
  Identifies-parse :
      (id : RequestIdentity)
      → parse_request_identity fingerprint head ≡ some id
      → Identifies fingerprint head id
  Identifies-parse id h =
      let parts =
        assemble-some fingerprint _ _ _ _ id (sym (parse-assemble fingerprint head) ∙ h) in
      record {
        has_tenant = NumberField-header_number head hdr_tenant id.tenant parts.0;
        has_group = NumberField-header_number head hdr_group id.group parts.1;
        has_fp = NumberField-header_number head hdr_prefix_fp id.content_fp parts.2;
        verified = λ content f.
            parts.3 content ((header_value_ci_iff hdr_prefix_content content head).1 f);
      }

  parse-Identifies :
      (id : RequestIdentity)
      → Identifies fingerprint head id
      → parse_request_identity fingerprint head ≡ some id
  parse-Identifies id i =
      parse-assemble fingerprint head
      ∙ some-assemble fingerprint _ _ _ _ id
          (header_number-NumberField head hdr_tenant id.tenant i.has_tenant)
          (header_number-NumberField head hdr_group id.group i.has_group)
          (header_number-NumberField head hdr_prefix_fp id.content_fp i.has_fp)
          (λ content e.
            i.verified content ((header_value_ci_iff hdr_prefix_content content head).0 e))

  -- The parser gives an identity just where, among the lines of all that was read, the body's too, the
  -- first of each of the three names in any case is followed by a colon and, but for white space around
  -- it, a number that fits 64 bits: hexadecimal digits alone, with a plus sign or none, after `0x` or
  -- `0X`, or else text that begins with decimal digits, of which what follows the digits is ignored;
  -- and where the value of the first line of the content's name, if there is one, hashes to the
  -- third number.
  pub parse_request_identity_iff :
      (id : RequestIdentity)
      → (parse_request_identity fingerprint head ≡ some id) ↔ Identifies fingerprint head id
  parse_request_identity_iff id = (Identifies-parse id, parse-Identifies id)

-- Where the lines up to the blank one hold none of the four headers, the body alone decides: whoever
-- writes the body chooses tenant, group and fingerprint.
pub parse_request_identity_from_body :
    (fingerprint : Bytes → ℕ) (head body : Bytes)
    → header_value_ci head hdr_tenant ≡ none
    → header_value_ci head hdr_group ≡ none
    → header_value_ci head hdr_prefix_fp ≡ none
    → header_value_ci head hdr_prefix_content ≡ none
    → parse_request_identity fingerprint (head ++ 10 ∷ body)
      ≡ parse_request_identity fingerprint body
unfolding parse_request_identity
parse_request_identity_from_body fingerprint head body t g f c = rw (
  header_value_ci-append hdr_tenant head body,
  header_value_ci-append hdr_group head body,
  header_value_ci-append hdr_prefix_fp head body,
  header_value_ci-append hdr_prefix_content head body,
  t,
  g,
  f,
  c,
)

abbrev estimate : Option ℕ → Option ℕ → ℕ
estimate t p = elim (or_else t p) [ none ↦ routing_short_context_tokens + 1 | some tokens ↦ tokens ]

declared :
    (t p : Option ℕ)
    → estimate t p ≤ 512
    → (t ≡ some (estimate t p)) ⊎ ((t ≡ none) × (p ≡ some (estimate t p)))
declared (some t) p h = inl refl
declared none (some p) h = inr (refl, refl)
declared none none h = absurd (omega arith)

-- A short estimate is always declared: a request whose size is not given by its header or its path
-- counts as longer than the short-context limit.
pub estimate_prompt_tokens_declared :
    (head : Bytes)
    → estimate_prompt_tokens head ≤ 512
    → (parse_prompt_tokens head ≡ some (estimate_prompt_tokens head))
      ⊎ ((parse_prompt_tokens head ≡ none)
          × (parse_path_tokens head ≡ some (estimate_prompt_tokens head)))
unfolding estimate_prompt_tokens
estimate_prompt_tokens_declared head h =
    declared (parse_prompt_tokens head) (parse_path_tokens head) h
