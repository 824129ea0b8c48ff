-- ===== src/Http/Field.antt =====
-- What a header is, by the shape of its line, and that the search finds the first one.
use demiurge.Base.{
  ℕ, suc, zero, ◌+◌, ◌<◌, ◌≡◌, refl, Option-cases, sym, ap, ap₂, length-append, if◌then◌else◌, ◌∙◌,
  ◌↔◌, inl, inr, Bool, true, ◌&&◌, none, some, List, [], ◌∷◌, ◌++◌, length, take, drop, get_or,
  arith, Bytes, eq_ci, split, ◌==◌, ltb, take-append_exact, drop-append_exact,
}
use mathlib.Core.List.{append_assoc}
use demiurge.Http.{trim_ascii_ws, strip_cr, line_value, search_lines, header_value_ci}
use demiurge.Http.Header.{eq_ci-length}

-- A line, less a carriage return at its end, is the name in any case, a colon, and text that is the value
-- but for the white space around it.
pub record IsField (name line value : Bytes) : Type 0 where
  pub spelled : Bytes
  pub text : Bytes
  pub is_line : strip_cr line ≡ spelled ++ (b':' ∷ text)
  pub same_name : eq_ci spelled name ≡ true
  pub is_value : trim_ascii_ws text ≡ value

-- The first of the lines that is a field of this name has this value.
pub data FirstField (name value : Bytes) : List Bytes → Type 0 where
  here :
      (line : Bytes) (lines : List Bytes)
      → IsField name line value
      → FirstField name value (line ∷ lines)
  later :
      (line : Bytes) (lines : List Bytes)
      → ((other : Bytes) → ¬ IsField name line other)
      → FirstField name value lines
      → FirstField name value (line ∷ lines)

split_at :
    (n : ℕ) (bs : Bytes) → n < length bs → bs ≡ take n bs ++ (get_or bs n 0 ∷ drop (suc n) bs)
split_at n [] h = absurd (omega arith)
split_at zero (b ∷ bs) h = refl
split_at (suc n) (b ∷ bs) h = ap (λ r. b ∷ r) (split_at n bs (omega arith))

get_or-append_exact : (n x : ℕ) (xs ys : Bytes) → n ≡ length xs → get_or (xs ++ (x ∷ ys)) n 0 ≡ x
get_or-append_exact zero x [] ys h = refl
get_or-append_exact zero x (y ∷ xs) ys h = absurd (omega arith)
get_or-append_exact (suc n) x [] ys h = absurd (omega arith)
get_or-append_exact (suc n) x (y ∷ xs) ys h = get_or-append_exact n x xs ys (omega arith)

-- The value is behind three tests.
tests_hold :
    (a b c : Bool) (v w : Bytes)
    → (if a && (b && c) then some v else none) ≡ some w
    → (a ≡ true) × (b ≡ true) × (c ≡ true) × (v ≡ w)
tests_hold a b c v w h = ground arith

IsField-line_value :
    (name line value : Bytes)
    → line_value name (strip_cr line) ≡ some value
    → IsField name line value
unfolding line_value
IsField-line_value name line value h =
    let n = length name in
    let l = strip_cr line in
    let (room, colon, same, is_value) =
      tests_hold (ltb n (length l)) (get_or l n 0 == b':') (eq_ci (take n l) name)
        (trim_ascii_ws (drop (n + 1) l)) value h in
    let byte : get_or l n 0 ≡ b':' = ground arith in
    let one_more : suc n ≡ n + 1 = omega arith in
    record {
      spelled = take n l;
      text = drop (n + 1) l;
      is_line = split_at n l (ground arith) ∙ ap₂ (λ x k. take n l ++ (x ∷ drop k l)) byte one_more;
      same_name = same;
      is_value = is_value;
    }

line_value-IsField :
    (name line value : Bytes)
    → IsField name line value
    → line_value name (strip_cr line) ≡ some value
unfolding line_value
line_value-IsField name line value f =
    let same = eq_ci-length f.spelled name f.same_name in
    let n = length name in
    let whole = f.spelled ++ (b':' ∷ f.text) in
    let front : take n whole ≡ f.spelled =
      take-append_exact n f.spelled (b':' ∷ f.text) (omega arith) in
    let colon : get_or whole n 0 ≡ b':' =
      get_or-append_exact n b':' f.spelled f.text (omega arith) in
    let back : drop (n + 1) whole ≡ f.text =
      ap (drop (n + 1)) (sym (append_assoc f.spelled (b':' ∷ []) f.text))
      ∙ drop-append_exact (n + 1) (f.spelled ++ (b':' ∷ [])) f.text
          (omega (arith, length-append f.spelled (b':' ∷ []))) in
    let room : ltb n (length whole) ≡ true =
      ground (arith, length-append f.spelled (b':' ∷ f.text)) in
    rw (f.is_line, room, colon, front, back, f.same_name, f.is_value) refl

module _ (name value : Bytes) where
  FirstField-search :
      (lines : List Bytes) → search_lines name lines ≡ some value → FirstField name value lines
  unfolding search_lines
  FirstField-search [] h = cc
  FirstField-search (line ∷ lines) h = elim (Option-cases (line_value name (strip_cr line))) [
    | inl e ↦
        later line lines (λ other f. let found = line_value-IsField name line other f in cc)
          (FirstField-search lines (ground arith))
    | inr (v, e) ↦ here line lines (IsField-line_value name line value (ground arith))
  ]

  search-FirstField :
      {lines : List Bytes} → FirstField name value lines → search_lines name lines ≡ some value
  unfolding search_lines
  search-FirstField (here line lines f) =
      let found = line_value-IsField name line value f in ground arith
  search-FirstField (later line lines none_here f) =
      elim (Option-cases (line_value name (strip_cr line))) [
        | inl e ↦ let rest = search-FirstField f in ground arith
        | inr (v, e) ↦ absurd (none_here v (IsField-line_value name line v e))
      ]

  -- The search finds the first line that is a field of the name, and nothing where there is none.
  pub header_value_ci_iff :
      (head : Bytes)
      → (header_value_ci head name ≡ some value) ↔ FirstField name value (split (λ b. b == 10) head)
  unfolding header_value_ci
  header_value_ci_iff head = (FirstField-search (split (λ b. b == 10) head), search-FirstField)
