-- ===== src/Http/Header.antt =====
-- The search for a header: the lines in turn, in any case of the name, and past the end of the head.
use demiurge.Base.{
  ℕ, ◌≡◌, refl, ap, ◌∙◌, Bool, true, ◌&&◌, List, [], ◌∷◌, ◌++◌, length, take, arith, Bytes, eq_ci,
  lower, split, split-append, ◌==◌,
}
use demiurge.Http.{or_else, line_value, strip_cr, search_lines, header_value_ci}

search_lines-append :
    (name : Bytes) (ls ms : List Bytes)
    → search_lines name (ls ++ ms) ≡ or_else (search_lines name ls) (search_lines name ms)
unfolding search_lines
search_lines-append name [] ms = refl
search_lines-append name (l ∷ ls) ms = ground (arith, search_lines-append name ls ms)

-- The first match wins, and the search does not stop at the blank line that ends the head: where no
-- line of the head is such a header, lines of the body are read as one.
pub header_value_ci-append :
    (name head body : Bytes)
    → header_value_ci (head ++ 10 ∷ body) name
      ≡ or_else (header_value_ci head name) (header_value_ci body name)
unfolding header_value_ci
header_value_ci-append name head body =
    ap (search_lines name) (split-append (λ b. b == 10) head 10 body refl)
    ∙ search_lines-append name (split (λ b. b == 10) head) (split (λ b. b == 10) body)

lower_eq : (x y : ℕ) → (lower x == lower y) ≡ true → lower x ≡ lower y
lower_eq x y h = ground arith

and_true : (p q : Bool) → (p && q) ≡ true → (p ≡ true) × (q ≡ true)
and_true p q h = ground arith

-- Names that differ in case only are the same name.
eq_ci-cong : (line a b : Bytes) → eq_ci a b ≡ true → eq_ci line a ≡ eq_ci line b
unfolding eq_ci
eq_ci-cong [] [] [] h = refl
eq_ci-cong [] [] (y ∷ b) h = cc
eq_ci-cong [] (x ∷ a) [] h = cc
eq_ci-cong [] (x ∷ a) (y ∷ b) h = refl
eq_ci-cong (l ∷ line) [] [] h = refl
eq_ci-cong (l ∷ line) [] (y ∷ b) h = cc
eq_ci-cong (l ∷ line) (x ∷ a) [] h = cc
eq_ci-cong (l ∷ line) (x ∷ a) (y ∷ b) h =
    let both = and_true (lower x == lower y) (eq_ci a b) h in
    rw (lower_eq x y both.0, eq_ci-cong line a b both.1)

pub eq_ci-length : (a b : Bytes) → eq_ci a b ≡ true → length a ≡ length b
unfolding eq_ci
eq_ci-length [] [] h = refl
eq_ci-length [] (y ∷ b) h = cc
eq_ci-length (x ∷ a) [] h = cc
eq_ci-length (x ∷ a) (y ∷ b) h = ground (arith, eq_ci-length a b)

line_value-cong : (line a b : Bytes) → eq_ci a b ≡ true → line_value a line ≡ line_value b line
unfolding line_value
line_value-cong line a b h = rw (eq_ci-length a b h, eq_ci-cong (take (length b) line) a b h)

search_lines-cong :
    (ls : List Bytes) (a b : Bytes) → eq_ci a b ≡ true → search_lines a ls ≡ search_lines b ls
unfolding search_lines
search_lines-cong [] a b h = refl
search_lines-cong (l ∷ ls) a b h =
    ground (arith, line_value-cong (strip_cr l) a b h, search_lines-cong ls a b h)

-- The case of a header's name does not matter.
pub header_value_ci-cong :
    (head a b : Bytes) → eq_ci a b ≡ true → header_value_ci head a ≡ header_value_ci head b
unfolding header_value_ci
header_value_ci-cong head a b h = search_lines-cong (split (λ x. x == 10) head) a b h
