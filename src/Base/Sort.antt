-- ===== src/Base/Sort.antt =====
-- `sort_unstable` on `u64`: any sorted permutation of the input is this one, since equal numbers
-- cannot be told apart.
use Prim.Native.Nat.{ℕ, zero, suc, ◌+◌, ◌≤◌, ◌<◌}
use mathlib.Core.Path.{◌≡◌, refl}
use mathlib.Core.Bool.{Bool}
use mathlib.Core.List.{List, [], ◌∷◌, Perm}
use mathlib.Core.List.Perm
use native.Mathlib.Omega.{arith}
use demiurge.Base.Tests.{leb, ltb, if◌then◌else◌}
use demiurge.Base.Lists.{length, get_or, All}

pub insert_sorted : ℕ → List ℕ → List ℕ
insert_sorted x [] = x ∷ []
insert_sorted x (y ∷ ys) = if leb x y then x ∷ y ∷ ys else y ∷ insert_sorted x ys

unfoldable pub sort : List ℕ → List ℕ
unfolding insert_sorted
sort [] = []
sort (x ∷ xs) = insert_sorted x (sort xs)

abbrev pub IsSorted : List ℕ → Type 0
IsSorted [] = Unit {0}
IsSorted (x ∷ xs) = All (λ y. x ≤ y) xs × IsSorted xs

All-le_trans : (a b : ℕ) (xs : List ℕ) → a ≤ b → All (λ y. b ≤ y) xs → All (λ y. a ≤ y) xs
All-le_trans a b [] h p = tt
All-le_trans a b (x ∷ xs) h p = (omega arith, All-le_trans a b xs h p.1)

module _ (P : ℕ → Type 0) where
  All-insert_sorted : (x : ℕ) (xs : List ℕ) → P x → All P xs → All P (insert_sorted x xs)
  unfolding insert_sorted
  All-insert_sorted x [] p h = (p, tt)
  All-insert_sorted x (y ∷ ys) p h = ground (arith, All-insert_sorted x ys p h.1)

  pub All-sort : (xs : List ℕ) → All P xs → All P (sort xs)
  unfolding sort
  All-sort [] h = tt
  All-sort (x ∷ xs) h = All-insert_sorted x (sort xs) h.0 (All-sort xs h.1)

insert_sorted-IsSorted : (x : ℕ) (xs : List ℕ) → IsSorted xs → IsSorted (insert_sorted x xs)
unfolding insert_sorted
insert_sorted-IsSorted x [] h = (tt, tt)
insert_sorted-IsSorted x (y ∷ ys) h = ground (
  arith,
  All-le_trans x y ys,
  insert_sorted-IsSorted x ys h.1,
  All-insert_sorted (λ z. y ≤ z) x ys,
)

pub sort-IsSorted : (xs : List ℕ) → IsSorted (sort xs)
unfolding sort
sort-IsSorted [] = tt
sort-IsSorted (x ∷ xs) = insert_sorted-IsSorted x (sort xs) (sort-IsSorted xs)

insert_sorted-perm : (x : ℕ) (xs : List ℕ) → Perm (insert_sorted x xs) (x ∷ xs)
unfolding insert_sorted
insert_sorted-perm x [] = Perm.refl (x ∷ [])
insert_sorted-perm x (y ∷ ys) = ground (
  arith,
  Perm.refl (x ∷ y ∷ ys),
  Perm.trans (Perm.cons y (insert_sorted-perm x ys)) (Perm.swap x y ys),
)

pub sort-perm : (xs : List ℕ) → Perm (sort xs) xs
unfolding sort
sort-perm [] = Perm.refl []
sort-perm (x ∷ xs) = Perm.trans (insert_sorted-perm x (sort xs)) (Perm.cons x (sort-perm xs))

length-insert_sorted : (x : ℕ) (xs : List ℕ) → length (insert_sorted x xs) ≡ suc (length xs)
unfolding insert_sorted
length-insert_sorted x [] = refl
length-insert_sorted x (y ∷ ys) = ground (arith, length-insert_sorted x ys)

pub length-sort : (xs : List ℕ) → length (sort xs) ≡ length xs
unfolding sort
length-sort [] = refl
length-sort (x ∷ xs) = omega (arith, length-insert_sorted x (sort xs), length-sort xs)

-- A sorted list read at a larger index gives a larger value.
pub IsSorted-get_or :
    (xs : List ℕ) (i j : ℕ) → IsSorted xs → i ≤ j → j < length xs → get_or xs i 0 ≤ get_or xs j 0
IsSorted-get_or [] i j h le lt = absurd (omega arith)
IsSorted-get_or (x ∷ xs) zero zero h le lt = omega arith
IsSorted-get_or (x ∷ xs) zero (suc j) h le lt = All-head xs j h.0 (omega arith)
  where
    All-head : (ys : List ℕ) (k : ℕ) → All (λ y. x ≤ y) ys → k < length ys → x ≤ get_or ys k 0
    All-head [] k p q = absurd (omega arith)
    All-head (y ∷ ys) zero p q = p.0
    All-head (y ∷ ys) (suc k) p q = All-head ys k p.1 (omega arith)
IsSorted-get_or (x ∷ xs) (suc i) zero h le lt = absurd (omega arith)
IsSorted-get_or (x ∷ xs) (suc i) (suc j) h le lt =
    IsSorted-get_or xs i j h.1 (omega arith) (omega arith)

-- How many elements pass a test; the library's `count` goes by another ℕ.
pub count_p : (ℕ → Bool) → List ℕ → ℕ
count_p p [] = 0
count_p p (x ∷ xs) = (if p x then 1 else 0) + count_p p xs

count_p-insert_sorted :
    (p : ℕ → Bool) (x : ℕ) (xs : List ℕ) → count_p p (insert_sorted x xs) ≡ count_p p (x ∷ xs)
unfolding count_p insert_sorted
count_p-insert_sorted p x [] = refl
count_p-insert_sorted p x (y ∷ ys) = ground (arith, count_p-insert_sorted p x ys)

pub count_p-sort : (p : ℕ → Bool) (xs : List ℕ) → count_p p (sort xs) ≡ count_p p xs
unfolding count_p sort
count_p-sort p [] = refl
count_p-sort p (x ∷ xs) = omega (arith, count_p-insert_sorted p x (sort xs), count_p-sort p xs)

-- In a sorted list more than `i` elements are at most the element at `i`.
pub count_p-leb_index :
    (xs : List ℕ) (i : ℕ)
    → IsSorted xs
    → i < length xs
    → i < count_p (λ y. leb y (get_or xs i 0)) xs
unfolding count_p
count_p-leb_index [] i h lt = absurd (omega arith)
count_p-leb_index (x ∷ xs) zero h lt = ground arith
count_p-leb_index (x ∷ xs) (suc i) h lt = ground (
  arith,
  IsSorted-get_or (x ∷ xs) 0 (suc i) h (omega arith) lt,
  count_p-leb_index xs i h.1 (omega arith),
)

count_p-ltb_head : (x : ℕ) (xs : List ℕ) → All (λ y. x ≤ y) xs → count_p (λ y. ltb y x) xs ≡ 0
unfolding count_p
count_p-ltb_head x [] h = refl
count_p-ltb_head x (y ∷ ys) h = ground (arith, count_p-ltb_head x ys h.1)

-- And at most `i` elements are below it.
pub count_p-ltb_index :
    (xs : List ℕ) (i : ℕ)
    → IsSorted xs
    → i < length xs
    → count_p (λ y. ltb y (get_or xs i 0)) xs ≤ i
unfolding count_p
count_p-ltb_index [] i h lt = absurd (omega arith)
count_p-ltb_index (x ∷ xs) zero h lt = ground (arith, count_p-ltb_head x xs h.0)
count_p-ltb_index (x ∷ xs) (suc i) h lt = ground (arith, count_p-ltb_index xs i h.1 (omega arith))
