-- ===== src/State/Warmth/Load.antt =====
-- The warmth map never holds more keys than its capacity, nor a key twice, and forgets nothing.
use demiurge.Base.{
  ℕ, ◌^◌, ◌≤◌, ◌<◌, ◌≡◌, max, true, false, ◌||◌, ◌&&◌, List, [], ◌∷◌, ◌==◌, length, elem, arith,
}
use demiurge.Base.Float.{quotient_at_least_exact}
use demiurge.State.Warmth.{WarmthMap, with_capacity, is_full, contains, insert, insert_all, merge}

abbrev IsDistinct : List ℕ → Type 0
IsDistinct [] = Unit
IsDistinct (k ∷ ks) = (elem k ks ≡ false) × IsDistinct ks

-- No key stands twice, and there is room for them; capacities that a double holds exactly.
pub record IsSound (w : WarmthMap) : Type 0 where
  pub distinct : IsDistinct w.keys
  pub within : length w.keys ≤ w.capacity
  pub positive : 0 < w.capacity
  pub exact : w.capacity < 2 ^ 53

room_left : (w : WarmthMap) → IsSound w → is_full w ≡ false → length w.keys < w.capacity
unfolding is_full
room_left w v h =
    let computed =
      quotient_at_least_exact 8106479329266893 53 (length w.keys) w.capacity
        (omega (arith, v.within, v.exact)) v.exact in
    ground (arith, v.within, v.positive, computed)

insert-IsSound : (b : ℕ) (w : WarmthMap) → IsSound w → IsSound (insert b w).1
unfolding insert
insert-IsSound b w v = record {
  distinct = ground (arith, v.distinct);
  within = ground (arith, v.within, room_left w v);
  positive = ground (arith, v.positive);
  exact = ground (arith, v.exact);
}

insert_all-IsSound : (ks : List ℕ) (w : WarmthMap) → IsSound w → IsSound (insert_all ks w)
unfolding insert_all
insert_all-IsSound [] w v = v
insert_all-IsSound (k ∷ ks) w v = insert_all-IsSound ks (insert k w).1 (insert-IsSound k w v)

-- What the map holds after an insertion: what it held, and the block if the call says so.
contains-insert :
    (j b : ℕ) (w : WarmthMap)
    → contains j (insert b w).1 ≡ (contains j w || (j == b && (insert b w).0))
unfolding contains insert elem
contains-insert j b w = ground arith

contains-insert_all :
    (j : ℕ) (ks : List ℕ) (w : WarmthMap)
    → (contains j w ≡ true → contains j (insert_all ks w) ≡ true)
      × (contains j (insert_all ks w) ≡ true → (contains j w || elem j ks) ≡ true)
unfolding insert_all elem
contains-insert_all j [] w = (λ h. h, λ h. ground arith)
contains-insert_all j (k ∷ ks) w =
    let rest = contains-insert_all j ks (insert k w).1 in
    let first = contains-insert j k w in
    (λ h. ground (arith, rest.0, first), λ h. ground (arith, rest.1, first))

-- A merge keeps the map sound, for a capacity that a double holds exactly: no key twice, and no more
-- keys than the capacity. It loses no key of its own, and takes up none but those of the other.
pub merge-IsSound :
    (w other : WarmthMap)
    → IsSound w
    → IsSound (merge w other)
      × ((j : ℕ) → contains j w ≡ true → contains j (merge w other) ≡ true)
      × ((j : ℕ) → contains j (merge w other) ≡ true → (contains j w || contains j other) ≡ true)
unfolding merge contains
merge-IsSound w other v = (
  insert_all-IsSound other.keys w v,
  λ j. (contains-insert_all j other.keys w).0,
  λ j. (contains-insert_all j other.keys w).1,
)

pub with_capacity-IsSound : (n : ℕ) → max n 1 < 2 ^ 53 → IsSound (with_capacity n)
unfolding with_capacity
with_capacity-IsSound n h = record {
  distinct = tt;
  within = omega arith;
  positive = omega arith;
  exact = h;
}
