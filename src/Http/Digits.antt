-- ===== src/Http/Digits.antt =====
-- The digit loop against the value of the leading digits.
use demiurge.Base.{
  ℕ, ◌+◌, ◌-◌, ◌*◌, ◌≤◌, ◌<◌, ◌≡◌, ◌≢◌, ◌↔◌, refl, ◌⊎◌, inl, inr, Bool, true, false, ◌||◌, Option,
  none, some, [], ◌∷◌, leb, if◌then◌else◌, arith, u64_max, Bytes, is_ascii_digit, dec_lt,
}
use demiurge.Http.{digits_from, parse_u64_digits}

pub leading_digits : Bytes → Bytes
leading_digits [] = []
leading_digits (b ∷ bs) = let rest = leading_digits bs in if is_ascii_digit b then b ∷ rest else []

-- The number that digits continue, with no bound.
pub value : ℕ → Bytes → ℕ
value n [] = n
value n (d ∷ ds) = value (n * 10 + (d - b'0')) ds

le-value : (n : ℕ) (ds : Bytes) → n ≤ value n ds
unfolding value
le-value n [] = omega arith
le-value n (d ∷ ds) = omega (arith, le-value (n * 10 + (d - b'0')) ds)

abbrev fits : ℕ → Option ℕ
fits n = if leb n u64_max then some n else none

abbrev is_nonempty : Bytes → Bool
is_nonempty [] = false
is_nonempty (x ∷ xs) = true

-- What the loop gives from a number and a flag.
abbrev outcome : ℕ → Bool → Bytes → Option ℕ
outcome n any ds = if any || is_nonempty ds then fits (value n ds) else none

digits_from_lem :
    (n : ℕ) (any : Bool) (bs : Bytes)
    → n ≤ u64_max
    → digits_from n any bs ≡ outcome n any (leading_digits bs)
unfolding digits_from leading_digits value
digits_from_lem n any [] h = ground arith
digits_from_lem n any (b ∷ bs) h = ground (
  arith,
  digits_from_lem (n * 10 + (b - b'0')) true bs,
  le-value (n * 10 + (b - b'0')) (leading_digits bs),
)

outcome-cases :
    (ds : Bytes)
    → ((ds ≡ []) × (outcome 0 false ds ≡ none))
      ⊎ ((u64_max < value 0 ds) × (outcome 0 false ds ≡ none))
      ⊎ ((value 0 ds ≤ u64_max) × (outcome 0 false ds ≡ some (value 0 ds)))
outcome-cases [] = inl (refl, refl)
outcome-cases (d ∷ ds) = elim (dec_lt u64_max (value 0 (d ∷ ds))) [
  | yes over ↦ inr (inl (over, ground arith))
  | no room ↦ inr (inr (omega arith, ground arith))
]

-- The parser gives the value of the leading digits, whatever follows them; it gives nothing where
-- there is no digit, and nothing where the value is above `u64::MAX`.
pub parse_u64_digits_lem :
    (bs : Bytes)
    → ((leading_digits bs ≡ []) × (parse_u64_digits bs ≡ none))
      ⊎ ((u64_max < value 0 (leading_digits bs)) × (parse_u64_digits bs ≡ none))
      ⊎ ((value 0 (leading_digits bs) ≤ u64_max)
          × (parse_u64_digits bs ≡ some (value 0 (leading_digits bs))))
unfolding parse_u64_digits
parse_u64_digits_lem bs =
    rw (digits_from_lem 0 false bs (omega arith)) (outcome-cases (leading_digits bs))

-- A text that begins with digits, the value of which, whatever follows them, is the number, a `u64`.
abbrev pub IsDecimal : Bytes → ℕ → Type 0
IsDecimal bs n = (leading_digits bs ≢ []) × (value 0 (leading_digits bs) ≡ n) × (n ≤ u64_max)

outcome_iff :
    (ds : Bytes) (n : ℕ)
    → (outcome 0 false ds ≡ some n) ↔ ((ds ≢ []) × (value 0 ds ≡ n) × (n ≤ u64_max))
outcome_iff [] n = (λ h. cc, λ d. absurd (d.0 refl))
outcome_iff (d ∷ ds) n = (λ h. (λ e. cc, ground arith, ground arith), λ v. ground arith)

pub parse_u64_digits_iff : (bs : Bytes) (n : ℕ) → (parse_u64_digits bs ≡ some n) ↔ IsDecimal bs n
unfolding parse_u64_digits
parse_u64_digits_iff bs n =
    rw (digits_from_lem 0 false bs (omega arith)) (outcome_iff (leading_digits bs) n)
