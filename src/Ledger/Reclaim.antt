-- ===== src/Ledger/Reclaim.antt =====
-- `reclaim_expired`: the abandoned reservations go, the others stay, and no release misses.
use demiurge.Base.{
  ℕ, ◌≡◌, refl, ◌∙◌, ◌≢◌, inl, inr, Bool, false, Option, none, some, Map, Distinct, List, [], ◌∷◌,
  nat_key, arith, if◌then◌else◌, Bool-cases, elem,
}
use demiurge.Base.Maps.{lookup}
use demiurge.Ledger.{
  ReservationEntry, ReservationLedger, is_expired, expired_ids, release, release_all,
  reclaim_expired,
}
use demiurge.Ledger.Invariant.{Inv}
use demiurge.Ledger.Release.{lookup-release, release-Inv}

pub lookup-release_all :
    (j : ℕ) (ids : List ℕ) (l : ReservationLedger)
    → lookup j (release_all ids l).reservations
      ≡ (if elem j ids then none else lookup j l.reservations)
unfolding release_all elem
lookup-release_all j [] l = refl
lookup-release_all j (id ∷ ids) l =
    ground (arith, lookup-release_all j ids (release id l), lookup-release j id l)

abbrev expires : ℕ → Option ReservationEntry → Bool
expires now none = false
expires now (some e) = is_expired now e

elem-expired_ids :
    (j now : ℕ) (m : Map ℕ ReservationEntry)
    → Distinct m
    → elem j (expired_ids now m) ≡ expires now (lookup j m)
unfolding elem expired_ids lookup
elem-expired_ids j now [] u = refl
elem-expired_ids j now ((id, e) ∷ m) u = ground (arith, elem-expired_ids j now m u.1)

-- What the reclaim leaves of an entry.
abbrev pub survivor : ℕ → Option ReservationEntry → Option ReservationEntry
survivor now none = none
survivor now (some e) = if is_expired now e then none else some e

-- The reclaim drops exactly the entries whose time is over, and leaves the others as they are.
pub lookup-reclaim_expired :
    (j now : ℕ) (l : ReservationLedger)
    → Inv l
    → lookup j (reclaim_expired now l).1.reservations ≡ survivor now (lookup j l.reservations)
unfolding reclaim_expired
lookup-reclaim_expired j now l v = ground (
  arith,
  lookup-release_all j (expired_ids now l.reservations) l,
  elem-expired_ids j now l.reservations v.distinct,
)

pub release_all-Inv : (ids : List ℕ) (l : ReservationLedger) → Inv l → Inv (release_all ids l)
unfolding release_all
release_all-Inv [] l v = v
release_all-Inv (id ∷ ids) l v = release_all-Inv ids (release id l) (release-Inv id l v)

-- The ids are held, each listed once.
abbrev AllHeld : List ℕ → Map ℕ ReservationEntry → Type 0
AllHeld [] m = Unit {0}
AllHeld (id ∷ ids) m = (lookup id m ≢ none) × (elem id ids ≡ false) × AllHeld ids m

AllHeld-release :
    (id : ℕ) (ids : List ℕ) (l : ReservationLedger)
    → elem id ids ≡ false
    → AllHeld ids l.reservations
    → AllHeld ids (release id l).reservations
unfolding elem
AllHeld-release id [] l n h = tt
AllHeld-release id (x ∷ xs) l n h = ground (arith, lookup-release x id l, AllHeld-release id xs l)

AllHeld-weaken :
    (ids : List ℕ) (id : ℕ) (e : ReservationEntry) (m : Map ℕ ReservationEntry)
    → lookup id m ≡ none
    → AllHeld ids m
    → AllHeld ids ((id, e) ∷ m)
unfolding lookup
AllHeld-weaken [] id e m n h = tt
AllHeld-weaken (x ∷ xs) id e m n h = ground (arith, AllHeld-weaken xs id e m n h.2)

expired_ids-AllHeld :
    (now : ℕ) (m : Map ℕ ReservationEntry) → Distinct m → AllHeld (expired_ids now m) m
unfolding expired_ids lookup
expired_ids-AllHeld now [] u = tt
expired_ids-AllHeld now ((id, e) ∷ m) u =
    let rest = AllHeld-weaken (expired_ids now m) id e m u.0 (expired_ids-AllHeld now m u.1) in
    elim (Bool-cases (is_expired now e)) [
      | inl over ↦ rw over (ground arith, ground (arith, elem-expired_ids id now m u.1), rest)
      | inr live ↦ rw live rest
    ]

release-errors :
    (id : ℕ) (l : ReservationLedger)
    → lookup id l.reservations ≢ none
    → (release id l).reservation_errors ≡ l.reservation_errors
unfolding release
release-errors id l h = ground arith

release_all-errors :
    (ids : List ℕ) (l : ReservationLedger)
    → AllHeld ids l.reservations
    → (release_all ids l).reservation_errors ≡ l.reservation_errors
unfolding release_all
release_all-errors [] l h = refl
release_all-errors (id ∷ ids) l (held, once, rest) =
    release_all-errors ids (release id l) (AllHeld-release id ids l once rest)
    ∙ release-errors id l held

-- The reclaim keeps the accounts, and none of its releases misses, so that no error is counted.
pub reclaim_expired-Inv :
    (now : ℕ) (l : ReservationLedger)
    → Inv l
    → Inv (reclaim_expired now l).1
      × ((reclaim_expired now l).1.reservation_errors ≡ l.reservation_errors)
unfolding reclaim_expired
reclaim_expired-Inv now l v = (
  release_all-Inv (expired_ids now l.reservations) l v,
  release_all-errors (expired_ids now l.reservations) l
      (expired_ids-AllHeld now l.reservations v.distinct),
)
