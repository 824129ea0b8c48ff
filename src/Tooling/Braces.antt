-- ===== src/Tooling/Braces.antt =====
-- The matching of braces finds the end of a balanced text.
use demiurge.Base.{
  ℕ, suc, ◌+◌, ◌-◌, ◌%◌, ◌^◌, ◌<◌, ◌≡◌, ◌≢◌, refl, ap, ap₂, ◌∙◌, false, some, [], ◌∷◌, ◌++◌, ◌==◌,
  length, length-append, drop-append_exact, Bytes, arith,
}
use mathlib.Core.List.{append_assoc}
use demiurge.Tooling.{match_from, find_matching_brace}

-- A text whose braces are balanced.
pub data Balanced : Bytes → Type 0 where
  blank : Balanced []
  other : (ch : ℕ) (tex : Bytes) → ch ≢ b'{' → ch ≢ b'}' → Balanced tex → Balanced (ch ∷ tex)
  braces :
      (inner tex : Bytes) → Balanced inner → Balanced tex → Balanced (b'{' ∷ inner ++ b'}' ∷ tex)

closing :
    (at depth : ℕ) (tex : Bytes)
    → 0 < depth
    → depth < 2 ^ 32
    → match_from at (suc depth) (b'}' ∷ tex) ≡ match_from (at + 1) depth tex
unfolding match_from
closing at depth tex pos fits =
    let out : (suc depth + 2 ^ 32 - 1) % 2 ^ 32 ≡ depth = omega arith in
    let inside : (depth == 0) ≡ false = ground arith in rw out (rw inside refl)

-- How far the loop gets over a balanced text: it is at the same depth behind it.
match_from-Balanced :
    (at depth : ℕ) {tex : Bytes} (rest : Bytes)
    → Balanced tex
    → 0 < depth
    → depth + length tex < 2 ^ 32
    → match_from at depth (tex ++ rest) ≡ match_from (at + length tex) depth rest
unfolding match_from
match_from-Balanced at depth rest blank pos fits = ap (λ n. match_from n depth rest) (omega arith)
match_from-Balanced at depth rest (other ch tex no_open no_close b) pos fits =
    let onward = match_from-Balanced (at + 1) depth rest b pos (omega arith) in
    let along : at + 1 + length tex ≡ at + suc (length tex) = omega arith in
    let step = onward ∙ ap (λ n. match_from n depth rest) along in
    ground (arith, step, no_open, no_close)
match_from-Balanced at depth rest (braces inner tex bi bt) pos fits =
    let long = length-append inner (b'}' ∷ tex) in
    let deep : (depth + 1) % 2 ^ 32 ≡ suc depth = omega arith in
    let inside =
      match_from-Balanced (at + 1) (suc depth) (b'}' ∷ (tex ++ rest)) bi (omega arith)
        (omega (arith, long)) in
    let outside =
      match_from-Balanced (at + 1 + length inner + 1) depth rest bt pos (omega (arith, long)) in
    ap₂ (match_from (at + 1)) deep (append_assoc inner (b'}' ∷ tex) rest)
    ∙ inside
    ∙ closing (at + 1 + length inner) depth (tex ++ rest) pos (omega arith)
    ∙ outside
    ∙ ap (λ n. match_from n depth rest) (omega (arith, long))

-- The brace that opens a balanced text is matched by the brace that ends it, wherever they stand, if the
-- text is shorter than the greatest depth.
pub find_matching_brace-Balanced :
    (before inner after : Bytes)
    → Balanced inner
    → length inner + 1 < 2 ^ 32
    → find_matching_brace (before ++ (b'{' ∷ inner ++ b'}' ∷ after)) (length before)
      ≡ some (length before + 1 + length inner)
unfolding find_matching_brace
find_matching_brace-Balanced before inner after b fits =
    let at = length before in
    let tail = drop-append_exact at before (b'{' ∷ inner ++ b'}' ∷ after) refl in
    rw tail (
      match_from-Balanced (at + 1) 1 (b'}' ∷ after) b (omega arith) (omega arith)
      ∙ unfold match_from in refl)
