-- ===== src/Base/Utf8.antt =====
-- `String::from_utf8_lossy`: the code points of a byte string, where each maximal part that begins no
-- character is one U+FFFD; and the operations on texts that differ from those on bytes.
use demiurge.Base.Tests.{leb, ◌==◌, if◌then◌else◌}
use demiurge.Base.Text.{Bytes}
use Prim.Native.Nat.{ℕ, zero, suc, ◌+◌, ◌*◌, ◌%◌}
use mathlib.Core.Bool.{Bool, ◌&&◌, ◌||◌}
use mathlib.Core.List.{List, [], ◌∷◌}

abbrev replacement : ℕ
replacement = 0xfffd

abbrev within : ℕ → ℕ → ℕ → Bool
within lo hi b = leb lo b && leb b hi

abbrev is_continuation : ℕ → Bool
is_continuation = within 0x80 0xbf

-- The second bytes that may follow a first byte of three or of four.
abbrev second_of_three : ℕ → ℕ → Bool
second_of_three a b =
    if a == 0xe0
    then within 0xa0 0xbf b
    else if a == 0xed
    then within 0x80 0x9f b
    else is_continuation b

abbrev second_of_four : ℕ → ℕ → Bool
second_of_four a b =
    if a == 0xf0
    then within 0x90 0xbf b
    else if a == 0xf4
    then within 0x80 0x8f b
    else is_continuation b

-- One character, or one replacement, and the bytes after it.
two_bytes : ℕ → Bytes → ℕ × Bytes
two_bytes a [] = (replacement, [])
two_bytes a (b ∷ bs) =
    if is_continuation b then (a % 32 * 64 + b % 64, bs) else (replacement, b ∷ bs)

three_bytes : ℕ → Bytes → ℕ × Bytes
three_bytes a [] = (replacement, [])
three_bytes a (b ∷ []) = (replacement, if second_of_three a b then [] else b ∷ [])
three_bytes a (b ∷ c ∷ bs) =
    if second_of_three a b
    then if is_continuation c
      then ((a % 16 * 64 + b % 64) * 64 + c % 64, bs)
      else (replacement, c ∷ bs)
    else (replacement, b ∷ c ∷ bs)

four_rest : ℕ → ℕ → Bytes → ℕ × Bytes
four_rest a b [] = (replacement, [])
four_rest a b (c ∷ []) = (replacement, if is_continuation c then [] else c ∷ [])
four_rest a b (c ∷ d ∷ bs) =
    if is_continuation c
    then if is_continuation d
      then (((a % 8 * 64 + b % 64) * 64 + c % 64) * 64 + d % 64, bs)
      else (replacement, d ∷ bs)
    else (replacement, c ∷ d ∷ bs)

four_bytes : ℕ → Bytes → ℕ × Bytes
unfolding four_rest
four_bytes a [] = (replacement, [])
four_bytes a (b ∷ bs) = if second_of_four a b then four_rest a b bs else (replacement, b ∷ bs)

next_char : ℕ → Bytes → ℕ × Bytes
unfolding two_bytes three_bytes four_bytes
next_char a bs =
    if leb a 0x7f
    then (a, bs)
    else if within 0xc2 0xdf a
    then two_bytes a bs
    else if within 0xe0 0xef a
    then three_bytes a bs
    else if within 0xf0 0xf4 a
    then four_bytes a bs
    else (replacement, bs)

-- Each round takes at least one byte, so the length of the input is fuel enough.
lossy_from : ℕ → Bytes → List ℕ
unfolding next_char
lossy_from zero bs = []
lossy_from (suc f) [] = []
lossy_from (suc f) (a ∷ bs) = let (c, rest) = next_char a bs in c ∷ lossy_from f rest

count_bytes : Bytes → ℕ
count_bytes [] = 0
count_bytes (b ∷ bs) = suc (count_bytes bs)

unfoldable pub from_utf8_lossy : Bytes → List ℕ
unfolding lossy_from count_bytes
from_utf8_lossy bs = lossy_from (count_bytes bs) bs

-- `char::is_whitespace`
abbrev pub is_whitespace : ℕ → Bool
is_whitespace c =
    within 9 13 c
    || c == 32
    || c == 0x85
    || c == 0xa0
    || c == 0x1680
    || within 0x2000 0x200a c
    || c == 0x2028
    || c == 0x2029
    || c == 0x202f
    || c == 0x205f
    || c == 0x3000
