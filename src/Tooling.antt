-- ===== src/Tooling.antt =====
-- The developer tooling, xtask: of it the parts of the lint that read the specification, xtask/src/main.rs.
-- A text is the list of its bytes, which are ASCII here, so that a character is at its byte.
pub mod Braces
mod Tests
use demiurge.Base.{
  ℕ, zero, suc, ◌+◌, ◌-◌, Bool, true, false, ◌&&◌, ◌||◌, not, Option, none, some, List, [], ◌∷◌,
  ◌++◌, ltb, leb, ◌==◌, if◌then◌else◌, length, take, drop, Bytes, bytes, starts_with, strip_prefix,
  ◌%◌, ◌^◌,
}

-- The loop of `find_matching_brace` from a position on; `depth` is a `u32`, which wraps in a release
-- build.
unfoldable pub match_from : ℕ → ℕ → Bytes → Option ℕ
match_from at depth [] = none
match_from at depth (ch ∷ tex) =
    let deeper = match_from (at + 1) ((depth + 1) % 2 ^ 32) tex in
    let out = (depth + 2 ^ 32 - 1) % 2 ^ 32 in
    let higher = match_from (at + 1) out tex in
    let same = match_from (at + 1) depth tex in
    if ch == b'{'
    then deeper
    else if ch == b'}'
    then (if out == 0 then some at else higher)
    else same

opens : Bytes → Bool
opens [] = false
opens (ch ∷ tex) = ch == b'{'

unfoldable pub find_matching_brace : Bytes → ℕ → Option ℕ
unfolding match_from opens
find_matching_brace tex start =
    if not (opens (drop start tex)) then none else match_from start 0 (drop start tex)

unfoldable pub position_in_ranges : ℕ → List (ℕ × ℕ) → Bool
position_in_ranges pos [] = false
position_in_ranges pos ((s, e) ∷ ranges) = (leb s pos && ltb pos e) || position_in_ranges pos ranges

-- `tex[search_from..].find(&needle)`, as a position of the whole text
unfoldable pub find_from : ℕ → Bytes → Bytes → Option ℕ
unfolding strip_prefix
find_from at needle [] = if starts_with needle [] then some at else none
find_from at needle (x ∷ tex) =
    let rest = find_from (at + 1) needle tex in
    if starts_with needle (x ∷ tex) then some at else rest

-- The loop of `find_macro_content_ranges`; a round moves past a macro, which is 3 bytes at least.
unfoldable pub content_ranges : ℕ → Bytes → Bytes → ℕ → List (ℕ × ℕ)
unfolding find_from find_matching_brace
content_ranges zero needle tex search_from = []
content_ranges (suc rounds) needle tex search_from =
    elim (find_from search_from needle (drop search_from tex)) [
      | none ↦ []
      | some macro_start ↦
          let open_brace = macro_start + length needle - 1 in
          elim (find_matching_brace tex open_brace) [
            | none ↦ []
            | some close_brace ↦
                (open_brace + 1, close_brace) ∷ content_ranges rounds needle tex (close_brace + 1)
          ]
    ]

unfoldable pub find_macro_content_ranges : Bytes → Bytes → List (ℕ × ℕ)
unfolding content_ranges
find_macro_content_ranges tex name =
    content_ranges (suc (length tex)) (bytes "\\" ++ (name ++ bytes "{")) tex 0

-- The position of the first `%` that does not follow a backslash, or the line's length; `last` is the
-- byte before.
unfoldable pub cut_from : ℕ → ℕ → Bytes → ℕ
cut_from at last [] = at
cut_from at last (x ∷ line) =
    let rest = cut_from (at + 1) x line in if x == b'%' && not (last == 92) then at else rest

unfoldable pub strip_line : Bytes → Bytes
unfolding cut_from
strip_line line = take (cut_from 0 0 line) line

-- On the lines that `lines` gives.
unfoldable pub strip_tex_comments : List Bytes → Bytes
unfolding strip_line
strip_tex_comments [] = []
strip_tex_comments (line ∷ lines) = strip_line line ++ 10 ∷ strip_tex_comments lines
