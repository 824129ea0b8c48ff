-- ===== src/Ledger/History.antt =====
-- Histories of the ledger. Every operation is one step under the lock, and the releases of a reclaim
-- are steps of their own, so what any number of threads do is some sequence of the steps below.
use demiurge.Base.{
  ℕ, ◌+◌, ◌≤◌, ◌<◌, ◌≡◌, refl, ap, ◌∙◌, ◌≢◌, true, false, Option, none, String, Map, List, [], ◌∷◌,
  nat_key, string_key, arith, u64_max, elem,
}
use demiurge.Base.Maps.{lookup, contains_key, total}
use demiurge.Ledger.{
  ReservationEntry, ReservationLedger, new, or_zero, try_reserve_from, release, release_all, admit,
  charge_source, ok,
}
use demiurge.Ledger.Invariant.{Inv, entry_bytes, new-Inv}
use demiurge.Ledger.Reserve.{try_reserve_from-Inv}
use demiurge.Ledger.Release.{release-Inv}
use demiurge.Ledger.Reclaim.{lookup-release_all, release_all-Inv}

eq_nil : (m : Map ℕ ReservationEntry) → ((j : ℕ) → lookup j m ≡ none) → m ≡ []
unfolding lookup
eq_nil [] h = refl
eq_nil ((id, e) ∷ m) h = ground (arith, h id)

-- One step of some thread.
pub data Step (l : ReservationLedger) : ReservationLedger → Type 0 where
  reserves :
      (source : Option String) (id bytes now : ℕ)
      → Step l (try_reserve_from source id bytes now l).1
  releases : (id : ℕ) → Step l (release id l)

-- What the steps reach from a ledger.
pub data Reach (l : ReservationLedger) : ReservationLedger → Type 0 where
  here : Reach l l
  next : {m n : ReservationLedger} → Reach l m → Step m n → Reach l n

Step-Inv : {l m : ReservationLedger} → Step l m → Inv l → Inv m
Step-Inv {l} (reserves source id bytes now) v = try_reserve_from-Inv source id bytes now l v
Step-Inv {l} (releases id) v = release-Inv id l v

Reach-Inv : {l m : ReservationLedger} → Inv l → Reach l m → Inv m
Reach-Inv v here = v
Reach-Inv v (next r s) = Step-Inv s (Reach-Inv v r)

Step-limits :
    {l m : ReservationLedger}
    → Step l m
    → (m.capacity_bytes ≡ l.capacity_bytes) × (m.max_per_source ≡ l.max_per_source)
unfolding try_reserve_from release admit
Step-limits (reserves source id bytes now) = ground arith
Step-limits (releases id) = ground arith

Reach-limits :
    {l m : ReservationLedger}
    → Reach l m
    → (m.capacity_bytes ≡ l.capacity_bytes) × (m.max_per_source ≡ l.max_per_source)
Reach-limits here = (refl, refl)
Reach-limits (next r s) =
    ((Step-limits s).0 ∙ (Reach-limits r).0, (Step-limits s).1 ∙ (Reach-limits r).1)

-- Whatever the threads do from a new ledger on, the fleet total is the sum of the live
-- reservations, it never exceeds the capacity, and no prefill source ever holds more than its
-- quota. The capacity is below `u64::MAX`.
pub Reach-new :
    (capacity : ℕ) {l : ReservationLedger}
    → capacity < u64_max
    → Reach (new capacity) l
    → (l.reserved_bytes ≡ total entry_bytes l.reservations)
      × (l.reserved_bytes ≤ capacity)
      × ((label : String)
          → or_zero (lookup label l.source_outstanding) ≤ (new capacity).max_per_source)
unfolding new
Reach-new capacity {l} h r = (
  v.reserved,
  omega (arith, v.fits, (Reach-limits r).0),
  λ label. omega (arith, v.sources.within label, (Reach-limits r).1),
)
  where
    v : Inv l
    v = Reach-Inv (new-Inv capacity h) r

-- Once every held id has been released, nothing is reserved: no bytes leak.
pub release_all-drains :
    (ids : List ℕ) (l : ReservationLedger)
    → Inv l
    → ((id : ℕ) → lookup id l.reservations ≢ none → elem id ids ≡ true)
    → ((release_all ids l).reservations ≡ []) × ((release_all ids l).reserved_bytes ≡ 0)
unfolding total
release_all-drains ids l v all =
    (empty, (release_all-Inv ids l v).reserved ∙ ap (total entry_bytes) empty)
  where
    empty : (release_all ids l).reservations ≡ []
    empty =
        eq_nil (release_all ids l).reservations
          λ j. ground (arith, lookup-release_all j ids l, all j)

-- At a capacity of `u64::MAX` the saturating test never refuses: an admission that passes the
-- largest `u64` wraps the fleet total, which falls although bytes were added.
pub try_reserve_from_wraps :
    (id bytes now : ℕ) (l : ReservationLedger)
    → l.capacity_bytes ≡ u64_max
    → l.reserved_bytes ≤ u64_max
    → bytes ≤ u64_max
    → u64_max < l.reserved_bytes + bytes
    → lookup id l.reservations ≡ none
    → let (outcome, l') = try_reserve_from none id bytes now l in
      (outcome ≡ ok (record { request_id = id; released = false }))
      × (l'.reserved_bytes < l.reserved_bytes)
unfolding try_reserve_from contains_key admit charge_source
try_reserve_from_wraps id bytes now l c r b over fresh = ground arith
