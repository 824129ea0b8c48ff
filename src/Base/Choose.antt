-- ===== src/Base/Choose.antt =====
-- `Iterator::min_by`: the first element that no other is below, by a test of the order.
use mathlib.Core.Path.{◌≡◌, refl, subst}
use mathlib.Core.Logic.{◌⊎◌, inl, inr}
use mathlib.Core.Bool.{Bool, true, false}
use mathlib.Core.Option.{Option, none, some, none-ne-some, some-injective}
use mathlib.Core.List.{List, [], ◌∷◌}
use demiurge.Base.Tests.{if◌then◌else◌, Bool-cases}
use demiurge.Base.Lists.{All}

module _ {A : Type 0} where
  -- To be an element, by recursion.
  abbrev pub In : A → List A → Type 0
  In a [] = ⊥
  In a (x ∷ xs) = (a ≡ x) ⊎ In a xs

  pub All-weaken : (P Q : A → Type 0) (xs : List A) → ((a : A) → P a → Q a) → All P xs → All Q xs
  All-weaken P Q [] f h = tt
  All-weaken P Q (x ∷ xs) f h = (f x h.0, All-weaken P Q xs f h.1)

  pub All-In : (xs : List A) → All (λ a. In a xs) xs
  All-In [] = tt
  All-In (x ∷ xs) =
      (inl refl, All-weaken (λ a. In a xs) (λ a. In a (x ∷ xs)) xs (λ a h. inr h) (All-In xs))

  -- There is a choice wherever there is an element, and it is one of them.
  abbrev pub Chosen : List A → Option A → Type 0
  Chosen xs none = xs ≡ []
  Chosen xs (some b) = In b xs

module _ {A : Type 0} (le : A → A → Bool) where
  unfoldable pub best : A → List A → A
  best a [] = a
  best a (x ∷ xs) = best (if le a x then a else x) xs

  unfoldable pub min_by : List A → Option A
  unfolding best
  min_by [] = none
  min_by (x ∷ xs) = some (best x xs)

  best-All : (P : A → Type 0) (a : A) (xs : List A) → P a → All P xs → P (best a xs)
  unfolding best
  best-All P a [] h hs = h
  best-All P a (x ∷ xs) h hs = elim (Bool-cases (le a x)) [
    | inl e ↦ rw (e) (best-All P a xs h hs.1)
    | inr e ↦ rw (e) (best-All P x xs hs.0 hs.1)
  ]

  -- What holds of every element holds of the one that is chosen.
  pub min_by-All : (P : A → Type 0) (b : A) (xs : List A) → min_by xs ≡ some b → All P xs → P b
  unfolding min_by
  min_by-All P b [] e h = absurd (none-ne-some _ e)
  min_by-All P b (x ∷ xs) e h = subst P (some-injective _ _ e) (best-All P x xs h.0 h.1)

  pub min_by-Chosen : (xs : List A) → Chosen xs (min_by xs)
  unfolding min_by
  min_by-Chosen [] = refl
  min_by-Chosen (x ∷ xs) =
      min_by-All (λ b. In b (x ∷ xs)) (best x xs) (x ∷ xs) refl (All-In (x ∷ xs))

  -- The first element that is below all others: it is strictly below what stands before it.
  pub data FirstMin (b : A) : List A → Type 0 where
    here : (xs : List A) → All (λ x. le b x ≡ true) xs → FirstMin b (b ∷ xs)
    there : (x : A) (xs : List A) → le x b ≡ false → FirstMin b xs → FirstMin b (x ∷ xs)

  -- What a selection promises: nothing of no candidates, else the first minimum.
  abbrev pub IsSelection : List A → Option A → Type 0
  IsSelection [] chosen = chosen ≡ none
  IsSelection (x ∷ xs) chosen = (b : A) × (chosen ≡ some b) × FirstMin b (x ∷ xs)

  -- The laws of a total preorder, as the test has them.
  pub record IsOrder : Type 0 where
    pub either : (a b : A) → (le a b ≡ true) ⊎ (le b a ≡ true)
    pub trans : (a b c : A) → le a b ≡ true → le b c ≡ true → le a c ≡ true

  module _ (order : IsOrder) where
    refl_le : (a : A) → le a a ≡ true
    refl_le a = elim (order.either a a) [ inl h ↦ h | inr h ↦ h ]

    of_not : (a b : A) → le b a ≡ false → le a b ≡ true
    of_not a b h = elim (order.either a b) [ inl p ↦ p | inr q ↦ cc ]

    le-FirstMin : (b x : A) (xs : List A) → FirstMin b (x ∷ xs) → le b x ≡ true
    le-FirstMin b _ _ (here xs h) = refl_le b
    le-FirstMin b _ _ (there x xs n m) = of_not b x n

    not_below : (a x b : A) → le a x ≡ true → le a b ≡ false → le x b ≡ false
    not_below a x b h n = elim (Bool-cases (le x b)) [
      | inl p ↦ cc (order.trans a x b h p)
      | inr q ↦ q
    ]

    not_above : (a x b : A) → le a x ≡ false → le b x ≡ true → le a b ≡ false
    not_above a x b n h = elim (Bool-cases (le a b)) [
      | inl p ↦ cc (order.trans a b x p h)
      | inr q ↦ q
    ]

    keep : (a b x : A) (xs : List A) → le a x ≡ true → FirstMin b (a ∷ xs) → FirstMin b (a ∷ x ∷ xs)
    keep _ b x _ e (here xs h) = here (x ∷ xs) (e, h)
    keep _ b x _ e (there a xs n m) = there a (x ∷ xs) n (there x xs (not_below a x b e n) m)

    skip :
        (a b x : A) (xs : List A) → le a x ≡ false → FirstMin b (x ∷ xs) → FirstMin b (a ∷ x ∷ xs)
    skip a b x xs n m = there a (x ∷ xs) (not_above a x b n (le-FirstMin b x xs m)) m

    pub best-FirstMin : (a : A) (xs : List A) → FirstMin (best a xs) (a ∷ xs)
    unfolding best
    best-FirstMin a [] = here [] tt
    best-FirstMin a (x ∷ xs) = elim (Bool-cases (le a x)) [
      | inl e ↦ rw (e) (keep a (best a xs) x xs e (best-FirstMin a xs))
      | inr n ↦ rw (n) (skip a (best x xs) x xs n (best-FirstMin x xs))
    ]

    pub min_by-IsSelection : (xs : List A) → IsSelection xs (min_by xs)
    unfolding min_by
    min_by-IsSelection [] = refl
    min_by-IsSelection (x ∷ xs) = (best x xs, refl, best-FirstMin x xs)
