-- ===== src/Base/Text.antt =====
-- Bytes and texts as lists of numbers, and what the program uses of Rust's operations on them.
use Prim.Native.Nat.{ℕ, ◌+◌}
use Prim.Native.Char.{code}
use Prim.Native.String.{String}
use mathlib.Core.Path.{◌≡◌, refl}
use mathlib.Core.Logic.{◌≢◌, inl, inr}
use mathlib.Core.Bool.{Bool, true, false, ◌&&◌, ◌||◌}
use mathlib.Core.Option.{Option, none, some}
use mathlib.Core.List.{List, [], ◌∷◌, ◌++◌}
use native.Mathlib.Omega.{arith}
use demiurge.Base.Tests.{leb, ◌==◌, if◌then◌else◌, Bool-cases}

abbrev pub Bytes : Type 0
Bytes = List ℕ

-- The bytes of an ASCII literal.
abbrev pub bytes : String → Bytes
bytes String.[] = []
bytes (String.◌∷◌ c s) = code c ∷ bytes s

-- `u8::is_ascii_whitespace`: tab, line feed, form feed, carriage return, space
abbrev pub is_ascii_whitespace : ℕ → Bool
is_ascii_whitespace b = b == 9 || b == 10 || b == 12 || b == 13 || b == 32

abbrev pub is_ascii_digit : ℕ → Bool
is_ascii_digit b = leb b'0' b && leb b b'9'

-- `to_ascii_lowercase` of one byte
abbrev pub lower : ℕ → ℕ
lower b = if leb b'A' b && leb b b'Z' then b + 32 else b

unfoldable pub bytes_eq : Bytes → Bytes → Bool
bytes_eq [] [] = true
bytes_eq (x ∷ xs) (y ∷ ys) = x == y && bytes_eq xs ys
bytes_eq _ _ = false

-- `eq_ignore_ascii_case` of two byte strings
unfoldable pub eq_ci : Bytes → Bytes → Bool
eq_ci [] [] = true
eq_ci (x ∷ xs) (y ∷ ys) = lower x == lower y && eq_ci xs ys
eq_ci _ _ = false

-- The pieces between the bytes that pass the test; there is always a first piece.
cons_head : ℕ → List Bytes → List Bytes
cons_head x [] = (x ∷ []) ∷ []
cons_head x (p ∷ ps) = (x ∷ p) ∷ ps

unfoldable pub split : (ℕ → Bool) → Bytes → List Bytes
unfolding cons_head
split p [] = [] ∷ []
split p (x ∷ xs) = let rest = split p xs in if p x then [] ∷ rest else cons_head x rest

-- `strip_prefix`
unfoldable pub strip_prefix : Bytes → Bytes → Option Bytes
strip_prefix [] xs = some xs
strip_prefix (p ∷ ps) [] = none
strip_prefix (p ∷ ps) (x ∷ xs) = if p == x then strip_prefix ps xs else none

abbrev pub starts_with : Bytes → Bytes → Bool
starts_with p xs = elim (strip_prefix p xs) [ none ↦ false | some _ ↦ true ]

-- `windows(needle.len()).any(|w| w == needle)`
unfoldable pub contains : Bytes → Bytes → Bool
contains needle [] = starts_with needle []
contains needle (x ∷ xs) = starts_with needle (x ∷ xs) || contains needle xs

unfoldable pub ends_with : Bytes → Bytes → Bool
unfolding bytes_eq
ends_with suffix [] = bytes_eq suffix []
ends_with suffix (x ∷ xs) = bytes_eq suffix (x ∷ xs) || ends_with suffix xs

unfoldable pub trim_start : (ℕ → Bool) → Bytes → Bytes
trim_start ws [] = []
trim_start ws (x ∷ xs) = let rest = trim_start ws xs in if ws x then rest else x ∷ xs

cons_unless : Bool → ℕ → Bytes → Bytes
cons_unless blank x [] = if blank then [] else x ∷ []
cons_unless blank x (y ∷ ys) = x ∷ y ∷ ys

unfoldable pub trim_end : (ℕ → Bool) → Bytes → Bytes
unfolding cons_unless
trim_end ws [] = []
trim_end ws (x ∷ xs) = cons_unless (ws x) x (trim_end ws xs)

unfoldable pub trim : (ℕ → Bool) → Bytes → Bytes
unfolding trim_start trim_end
trim ws xs = trim_end ws (trim_start ws xs)

split-ne-nil : (p : ℕ → Bool) (xs : Bytes) → split p xs ≢ []
unfolding split
split-ne-nil p [] = λ e. cc
split-ne-nil p (x ∷ xs) = ground (arith, split-ne-nil p xs)

cons_head-append :
    (x : ℕ) (ps qs : List Bytes) → ps ≢ [] → cons_head x (ps ++ qs) ≡ cons_head x ps ++ qs
unfolding cons_head
cons_head-append x [] qs h = absurd (h refl)
cons_head-append x (p ∷ ps) qs h = refl

-- A separator ends a piece: the pieces before it and those after it are split apart.
pub split-append :
    (p : ℕ → Bool) (xs : Bytes) (sep : ℕ) (ys : Bytes)
    → p sep ≡ true
    → split p (xs ++ sep ∷ ys) ≡ split p xs ++ split p ys
unfolding split
split-append p [] sep ys h = ground arith
split-append p (x ∷ xs) sep ys h = elim (Bool-cases (p x)) [
  | inl e ↦ rw (e, split-append p xs sep ys h)
  | inr e ↦
      rw (e, split-append p xs sep ys h)
        (cons_head-append x (split p xs) (split p ys) (split-ne-nil p xs))
]
