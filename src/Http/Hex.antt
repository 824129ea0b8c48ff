-- ===== src/Http/Hex.antt =====
-- What hexadecimal digits are, and that the parser reads exactly these.
use demiurge.Base.{
  ℕ, ◌+◌, ◌*◌, ◌≤◌, ◌≡◌, ◌≢◌, refl, sym, ap, ◌∙◌, true, ◌⊎◌, inl, inr, Option, none, some, [], ◌∷◌,
  ◌==◌, arith, u64_max, Bytes, subst, checked_mul, checked_add, Bool-cases,
}
use demiurge.Http.{hex_digit, hex_from, from_str_radix_16}

-- The number that hexadecimal digits continue, all of which are digits.
pub data HexValue : ℕ → Bytes → ℕ → Type 0 where
  ended : (n : ℕ) → HexValue n [] n
  digit :
      (n b d : ℕ) (bs : Bytes) (m : ℕ)
      → hex_digit b ≡ some d
      → HexValue (n * 16 + d) bs m
      → HexValue n (b ∷ bs) m

le-HexValue : {n m : ℕ} {bs : Bytes} → HexValue n bs m → n ≤ m
le-HexValue (ended n) = omega arith
le-HexValue (digit n b d bs m e v) = omega (arith, le-HexValue v)

-- What the loop does with what a digit is, and the rest.
abbrev with_digit : Option ℕ → ℕ → (ℕ → Option ℕ) → Option ℕ
with_digit o n rest = elim o [
  | none ↦ none
  | some d ↦ elim (checked_mul n 16) [
    | none ↦ none
    | some m ↦ elim (checked_add m d) [ none ↦ none | some n' ↦ rest n' ]
  ]
]

with_digit-some :
    (o : Option ℕ) (n m : ℕ) (rest : ℕ → Option ℕ)
    → with_digit o n rest ≡ some m
    → (d : ℕ) × (o ≡ some d) × (n * 16 + d ≤ u64_max) × (rest (n * 16 + d) ≡ some m)
with_digit-some none n m rest h = cc
with_digit-some (some d) n m rest h = (d, refl, ground arith, ground arith)

some-with_digit :
    (o : Option ℕ) (n d m : ℕ) (rest : ℕ → Option ℕ)
    → o ≡ some d
    → n * 16 + d ≤ u64_max
    → rest (n * 16 + d) ≡ some m
    → with_digit o n rest ≡ some m
some-with_digit none n d m rest e h r = cc
some-with_digit (some c) n d m rest e h r = ground arith

hex_from-digit :
    (n b : ℕ) (bs : Bytes) → hex_from n (b ∷ bs) ≡ with_digit (hex_digit b) n (λ k. hex_from k bs)
unfolding hex_from
hex_from-digit n b bs = refl

HexValue-hex_from :
    (n : ℕ) (bs : Bytes) (m : ℕ)
    → n ≤ u64_max
    → hex_from n bs ≡ some m
    → HexValue n bs m × (m ≤ u64_max)
HexValue-hex_from n [] m h e =
    let same : n ≡ m = unfold hex_from in ground arith in
    (subst (λ k. HexValue n [] k) same (ended n), omega arith)
HexValue-hex_from n (b ∷ bs) m h e =
    let (d, is_digit, fits, rest) =
      with_digit-some (hex_digit b) n m (λ k. hex_from k bs) (sym (hex_from-digit n b bs) ∙ e) in
    let (v, le) = HexValue-hex_from (n * 16 + d) bs m fits rest in (digit n b d bs m is_digit v, le)

hex_from-HexValue :
    {n : ℕ} {bs : Bytes} {m : ℕ} → HexValue n bs m → m ≤ u64_max → hex_from n bs ≡ some m
hex_from-HexValue (ended n) h = unfold hex_from in refl
hex_from-HexValue (digit n b d bs m e v) h =
    hex_from-digit n b bs
    ∙ some-with_digit (hex_digit b) n d m (λ k. hex_from k bs) e (omega (arith, le-HexValue v))
        (hex_from-HexValue v h)

-- Hexadecimal digits, one at least, after a plus sign or none: their value is the number, a `u64`.
abbrev pub IsHex : Bytes → ℕ → Type 0
IsHex bs n =
    (digits : Bytes) × ((bs ≡ digits) ⊎ (bs ≡ b'+' ∷ digits))
    × (digits ≢ [])
    × HexValue 0 digits n
    × (n ≤ u64_max)

-- A plus sign is no digit.
no_plus : {n m : ℕ} {bs : Bytes} → HexValue n bs m → (rest : Bytes) → bs ≢ b'+' ∷ rest
no_plus (ended n) rest e = cc
no_plus (digit n b d bs m is_digit v) rest e = let byte : b ≡ b'+' = cc in ground arith

pub IsHex-radix : (bs : Bytes) (n : ℕ) → from_str_radix_16 bs ≡ some n → IsHex bs n
unfolding from_str_radix_16
IsHex-radix [] n h = cc
IsHex-radix (b ∷ []) n h =
    let (v, le) = HexValue-hex_from 0 (b ∷ []) n (omega arith) h in
    (b ∷ [], inl refl, λ e. cc, v, le)
IsHex-radix (b ∷ c ∷ bs) n h = elim (Bool-cases (b == b'+')) [
  | inl plus ↦
      let byte : b ≡ b'+' = ground arith in
      let after : hex_from 0 (c ∷ bs) ≡ some n = ground (arith, h) in
      let (v, le) = HexValue-hex_from 0 (c ∷ bs) n (omega arith) after in
      (c ∷ bs, inr (ap (λ x. x ∷ c ∷ bs) byte), λ e. cc, v, le)
  | inr other ↦
      let whole : hex_from 0 (b ∷ c ∷ bs) ≡ some n = ground (arith, h) in
      let (v, le) = HexValue-hex_from 0 (b ∷ c ∷ bs) n (omega arith) whole in
      (b ∷ c ∷ bs, inl refl, λ e. cc, v, le)
]

pub radix-IsHex : (bs : Bytes) (n : ℕ) → IsHex bs n → from_str_radix_16 bs ≡ some n
unfolding from_str_radix_16
radix-IsHex [] n (ds, inl e, some_digits, v, le) = absurd (some_digits (sym e))
radix-IsHex [] n (ds, inr e, some_digits, v, le) = cc
radix-IsHex (b ∷ []) n (ds, inl e, some_digits, v, le) = ap (hex_from 0) e ∙ hex_from-HexValue v le
radix-IsHex (b ∷ []) n (ds, inr e, some_digits, v, le) =
    let none_left : ds ≡ [] = cc in absurd (some_digits none_left)
radix-IsHex (b ∷ c ∷ bs) n (ds, inl e, some_digits, v, le) = elim (Bool-cases (b == b'+')) [
  | inl plus ↦
      let byte : b ≡ b'+' = ground arith in
      absurd (no_plus v (c ∷ bs) (sym e ∙ ap (λ x. x ∷ c ∷ bs) byte))
  | inr other ↦ rw other (ap (hex_from 0) e ∙ hex_from-HexValue v le)
]
radix-IsHex (b ∷ c ∷ bs) n (ds, inr e, some_digits, v, le) =
    let byte : b ≡ b'+' = cc in
    let same : c ∷ bs ≡ ds = cc in
    let plus : (b == b'+') ≡ true = ground arith in
    rw plus (ap (hex_from 0) same ∙ hex_from-HexValue v le)
