-- ===== src/Tooling/Tests.antt =====
-- A macro's argument with braces of its own, and comments.
use demiurge.Base.{◌≡◌, refl, some, [], ◌∷◌, ◌++◌, bytes, strip_prefix, arith}
use demiurge.Tooling.{find_matching_brace, find_macro_content_ranges, strip_tex_comments}
use demiurge.Tooling.Braces.{Balanced, blank, other, braces, find_matching_brace-Balanced}

nested : Balanced (bytes "a{}b")
nested =
    other b'a' (bytes "{}b") (ground arith) (ground arith)
      (braces [] (bytes "b") blank (other b'b' [] (ground arith) (ground arith) blank))

find_matching_brace-Balanced_example :
    find_matching_brace (bytes "x" ++ (b'{' ∷ bytes "a{}b" ++ b'}' ∷ bytes "}")) 1 ≡ some 6
find_matching_brace-Balanced_example =
    find_matching_brace-Balanced (bytes "x") (bytes "a{}b") (bytes "}") nested (ground arith)

two_macros :
    find_macro_content_ranges (bytes "\\intent{a{b}} and \\intent{c}") (bytes "intent")
    ≡ (8, 12) ∷ (26, 27) ∷ []
unfolding find_macro_content_ranges strip_prefix
two_macros = refl

-- The percent sign after a line break of LaTeX starts a comment there, but is not taken as one here.
after_line_break :
    strip_tex_comments (bytes "a % b" ∷ bytes "c \\\\% d" ∷ []) ≡ bytes "a \nc \\\\% d\n"
unfolding strip_tex_comments
after_line_break = refl
