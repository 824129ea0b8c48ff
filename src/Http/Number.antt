-- ===== src/Http/Number.antt =====
-- What a number in a header is, decimal or hexadecimal.
use demiurge.Base.{
  ℕ, ◌≡◌, ◌≢◌, refl, ap₂, sym, ap, ◌∙◌, ◌↔◌, Option-cases, ◌⊎◌, inl, inr, none, some, [], ◌∷◌, ◌++◌,
  ◌==◌, arith, Bytes, bytes, strip_prefix, Bool-cases,
}
use demiurge.Http.{from_str_radix_16, parse_u64_digits, parse_u64_maybe_hex}
use demiurge.Http.Digits.{IsDecimal, parse_u64_digits_iff}
use demiurge.Http.Hex.{IsHex, IsHex-radix, radix-IsHex}

-- A number in a header: after `0x` or `0X` hexadecimal, and decimal otherwise.
abbrev pub IsNumber : Bytes → ℕ → Type 0
IsNumber bs n =
    ((digits : Bytes) × ((bs ≡ bytes "0x" ++ digits) ⊎ (bs ≡ bytes "0X" ++ digits))
      × IsHex digits n)
    ⊎ (((digits : Bytes) → (bs ≢ bytes "0x" ++ digits) × (bs ≢ bytes "0X" ++ digits))
        × IsDecimal bs n)

strip_prefix-some : (p bs rest : Bytes) → strip_prefix p bs ≡ some rest → bs ≡ p ++ rest
unfolding strip_prefix
strip_prefix-some [] bs rest h = ground arith
strip_prefix-some (x ∷ p) [] rest h = cc
strip_prefix-some (x ∷ p) (b ∷ bs) rest h = elim (Bool-cases (x == b)) [
  | inl e ↦
      let same : x ≡ b = ground arith in
      let later : strip_prefix p bs ≡ some rest = ground arith in
      ap₂ (λ y ys. y ∷ ys) (sym same) (strip_prefix-some p bs rest later)
  | inr e ↦ ground arith
]

some-strip_prefix : (p rest : Bytes) → strip_prefix p (p ++ rest) ≡ some rest
unfolding strip_prefix
some-strip_prefix [] rest = refl
some-strip_prefix (x ∷ p) rest = ground (arith, some-strip_prefix p rest)

abbrev lower_x : Bytes
lower_x = bytes "0x"

abbrev upper_x : Bytes
upper_x = bytes "0X"

module _ (bs : Bytes) where
  after_lower :
      (hex : Bytes)
      → strip_prefix lower_x bs ≡ some hex
      → parse_u64_maybe_hex bs ≡ from_str_radix_16 hex
  unfolding parse_u64_maybe_hex strip_prefix
  after_lower hex e = rw e refl

  after_upper :
      (hex : Bytes)
      → strip_prefix lower_x bs ≡ none
      → strip_prefix upper_x bs ≡ some hex
      → parse_u64_maybe_hex bs ≡ from_str_radix_16 hex
  unfolding parse_u64_maybe_hex strip_prefix
  after_upper hex e f = rw (e, f) refl

  after_none :
      strip_prefix lower_x bs ≡ none
      → strip_prefix upper_x bs ≡ none
      → parse_u64_maybe_hex bs ≡ parse_u64_digits bs
  unfolding parse_u64_maybe_hex strip_prefix
  after_none e f = rw (e, f) refl

lacks : (p bs : Bytes) → strip_prefix p bs ≡ none → (rest : Bytes) → bs ≢ p ++ rest
lacks p bs e rest h =
    let there : strip_prefix p bs ≡ some rest = ap (strip_prefix p) h ∙ some-strip_prefix p rest in
    cc

lacked : (p bs : Bytes) → ((rest : Bytes) → bs ≢ p ++ rest) → strip_prefix p bs ≡ none
lacked p bs h = elim (Option-cases (strip_prefix p bs)) [
  | inl e ↦ e
  | inr (rest, e) ↦ absurd (h rest (strip_prefix-some p bs rest e))
]

IsNumber-parse : (bs : Bytes) (n : ℕ) → parse_u64_maybe_hex bs ≡ some n → IsNumber bs n
IsNumber-parse bs n h = elim (Option-cases (strip_prefix lower_x bs)) [
  | inr (hex, e) ↦ inl (
    hex,
    inl (strip_prefix-some lower_x bs hex e),
    IsHex-radix hex n (sym (after_lower bs hex e) ∙ h),
  )
  | inl e ↦ elim (Option-cases (strip_prefix upper_x bs)) [
    | inr (hex, f) ↦ inl (
      hex,
      inr (strip_prefix-some upper_x bs hex f),
      IsHex-radix hex n (sym (after_upper bs hex e f) ∙ h),
    )
    | inl f ↦ inr (
      λ digits. (lacks lower_x bs e digits, lacks upper_x bs f digits),
      (parse_u64_digits_iff bs n).0 (sym (after_none bs e f) ∙ h),
    )
  ]
]

parse-IsNumber : (bs : Bytes) (n : ℕ) → IsNumber bs n → parse_u64_maybe_hex bs ≡ some n
parse-IsNumber bs n (inl (hex, inl e, is_hex)) =
    after_lower bs hex (ap (strip_prefix lower_x) e ∙ some-strip_prefix lower_x hex)
    ∙ radix-IsHex hex n is_hex
parse-IsNumber bs n (inl (hex, inr e, is_hex)) =
    after_upper bs hex (ap (strip_prefix lower_x) e ∙ unfold strip_prefix in refl)
      (ap (strip_prefix upper_x) e ∙ some-strip_prefix upper_x hex)
    ∙ radix-IsHex hex n is_hex
parse-IsNumber bs n (inr (neither, is_decimal)) =
    after_none bs (lacked lower_x bs (λ rest. (neither rest).0))
      (lacked upper_x bs (λ rest. (neither rest).1))
    ∙ (parse_u64_digits_iff bs n).1 is_decimal

-- The parser of numbers reads exactly the numbers.
pub parse_u64_maybe_hex_iff :
    (bs : Bytes) (n : ℕ) → (parse_u64_maybe_hex bs ≡ some n) ↔ IsNumber bs n
parse_u64_maybe_hex_iff bs n = (IsNumber-parse bs n, parse-IsNumber bs n)
