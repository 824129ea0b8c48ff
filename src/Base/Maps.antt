-- ===== src/Base/Maps.antt =====
-- `HashMap` as an association list in insertion order: the order of iteration, which Rust leaves
-- open, is the order of the list, and theorems hold for every list.
use Prim.Native.Nat.{ℕ, ◌+◌, ◌≤◌}
use Prim.Native.String.{String}
use mathlib.Core.Path.{◌≡◌, refl}
use mathlib.Core.Logic.{◌↔◌, ite}
use mathlib.Core.Bool.{Bool, true, false}
use mathlib.Core.Option.{Option, none, some}
use mathlib.Core.List.{List, [], ◌∷◌}
use native.Mathlib.Decide.{ℕ_discrete}
use native.Mathlib.Omega.{arith}
use text.Mathlib.Text.{◌==◌ as str_eq}
use text.Mathlib.TextEquality.{eq_iff}

-- Keys that can be compared.
pub record Key {ℓ} (K : Type ℓ) : Type ℓ where
  pub eq? : Discrete K

-- `==` on labels
unfoldable pub same : String → String → Bool
same a b = str_eq a b

pub same_iff : (a b : String) → (same a b ≡ true) ↔ (a ≡ b)
unfolding same
same_iff a b = eq_iff a b

pub same_sym : (a b : String) → same a b ≡ same b a
same_sym a b = ground (arith, same_iff a b, same_iff b a)

decide_by {ℓ} : {P : Type ℓ} (b : Bool) → (b ≡ true) ↔ P → Dec P
decide_by true h = yes (h.0 refl)
decide_by false h = no (λ p. cc (h.1 p))

unfoldable pub String_discrete : Discrete String
unfolding decide_by
String_discrete a b = decide_by (str_eq a b) (eq_iff a b)

instance abbrev pub nat_key : Key ℕ
nat_key = record { eq? = ℕ_discrete }

instance abbrev pub string_key : Key String
string_key = record { eq? = String_discrete }

abbrev pub Map {ℓ} : Type ℓ → Type ℓ → Type ℓ
Map K V = List (K × V)

module _ {ℓ} {K V : Type ℓ} ⦃d : Key K⦄ where
  unfoldable pub lookup : K → Map K V → Option V
  lookup k [] = none
  lookup k ((j, v) ∷ m) = ite (d.eq? k j) (some v) (lookup k m)

  unfoldable pub contains_key : K → Map K V → Bool
  unfolding lookup
  contains_key k m = elim (lookup k m) [ none ↦ false | some _ ↦ true ]

  unfoldable pub insert : K → V → Map K V → Map K V
  insert k v [] = (k, v) ∷ []
  insert k v ((j, w) ∷ m) = ite (d.eq? k j) ((k, v) ∷ m) ((j, w) ∷ insert k v m)

  unfoldable pub remove : K → Map K V → Map K V
  remove k [] = []
  remove k ((j, w) ∷ m) = ite (d.eq? k j) (remove k m) ((j, w) ∷ remove k m)

  -- Each key stands once.
  abbrev pub Distinct : Map K V → Type ℓ
  Distinct [] = Unit
  Distinct ((k, v) ∷ m) = (lookup k m ≡ none) × Distinct m

  pub lookup-insert :
      (j k : K) (v : V) (m : Map K V)
      → lookup j (insert k v m) ≡ ite (d.eq? j k) (some v) (lookup j m)
  unfolding lookup insert
  lookup-insert j k v [] = refl
  lookup-insert j k v ((i, w) ∷ m) = ground (arith, lookup-insert j k v m)

  pub lookup-remove :
      (j k : K) (m : Map K V) → lookup j (remove k m) ≡ ite (d.eq? j k) none (lookup j m)
  unfolding lookup remove
  lookup-remove j k [] = ground arith
  lookup-remove j k ((i, w) ∷ m) = ground (arith, lookup-remove j k m)

  pub lookup-insert_self : (k : K) (v : V) (m : Map K V) → lookup k (insert k v m) ≡ some v
  lookup-insert_self k v m = ground (arith, lookup-insert k k v m)

  pub remove_of_none : (k : K) (m : Map K V) → lookup k m ≡ none → remove k m ≡ m
  unfolding lookup remove
  remove_of_none k [] h = refl
  remove_of_none k ((i, w) ∷ m) h = ground (arith, remove_of_none k m)

  pub insert-Distinct : (k : K) (v : V) (m : Map K V) → Distinct m → Distinct (insert k v m)
  unfolding insert lookup
  insert-Distinct k v [] h = (refl, tt)
  insert-Distinct k v ((i, w) ∷ m) h =
      ground (arith, insert-Distinct k v m h.1, lookup-insert i k v m)

  pub remove-Distinct : (k : K) (m : Map K V) → Distinct m → Distinct (remove k m)
  unfolding remove
  remove-Distinct k [] h = tt
  remove-Distinct k ((i, w) ∷ m) h = ground (arith, remove-Distinct k m h.1, lookup-remove i k m)

  -- The sum of a weight over the values.
  unfoldable pub total : (V → ℕ) → Map K V → ℕ
  total w [] = 0
  total w ((k, v) ∷ m) = w v + total w m

  pub total-insert_new :
      (w : V → ℕ) (k : K) (v : V) (m : Map K V)
      → lookup k m ≡ none
      → total w (insert k v m) ≡ total w m + w v
  unfolding total insert lookup
  total-insert_new w k v [] h = omega arith
  total-insert_new w k v ((i, u) ∷ m) h = ground (arith, total-insert_new w k v m)

  pub total-remove :
      (w : V → ℕ) (k : K) (v : V) (m : Map K V)
      → Distinct m
      → lookup k m ≡ some v
      → total w (remove k m) + w v ≡ total w m
  unfolding total remove lookup
  total-remove w k v [] u h = cc
  total-remove w k v ((i, x) ∷ m) u h = elim (d.eq? k i) [
    | yes e ↦ ground (arith, remove_of_none k m)
    | no n ↦ ground (arith, total-remove w k v m u.1)
  ]

  pub le-total : (w : V → ℕ) (k : K) (v : V) (m : Map K V) → lookup k m ≡ some v → w v ≤ total w m
  unfolding total lookup
  le-total w k v [] h = cc
  le-total w k v ((i, x) ∷ m) h = ground (arith, le-total w k v m)
