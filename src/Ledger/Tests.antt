-- ===== src/Ledger/Tests.antt =====
-- Runs of the ledger on small inputs, and each theorem at a concrete one.
use demiurge.Base.{
  ℕ, ◌-◌, ◌≤◌, ◌<◌, ◌≡◌, refl, ◌≢◌, true, false, Option, none, some, String, [], ◌∷◌, nat_key,
  string_key, String_discrete, arith, ℕ_discrete, u64_max, elem,
}
use demiurge.Base.Float.{mul_ceil}
use demiurge.Base.Maps.{lookup, contains_key, insert, total}
use demiurge.Ledger.{
  over_capacity, duplicate_request, ReservationLedger, ReservationGuard, ok, err, or_zero, new,
  try_reserve, try_reserve_from, release, reclaim_expired,
}
use demiurge.Ledger.Invariant.{Inv, new-Inv, entry_bytes}
use demiurge.Ledger.Reserve.{try_reserve_from-Inv}
use demiurge.Ledger.Release.{release-Inv}
use demiurge.Ledger.History.{Step, Reach, Reach-new, try_reserve_from_wraps}

abbrev pf_a : Option String
pf_a = some "pf-a"

-- Capacity 1000, so 250 for each source; request 1 holds 200 of them for pf-a, at time 0.
abbrev one : ReservationLedger
one = (try_reserve_from pf_a 1 200 0 (new 1000)).1

-- Request 2 holds another 500, without a source, at time 400 s.
abbrev two : ReservationLedger
two = (try_reserve 2 500 400_000_000_000 one).1

one-Inv : Inv one
one-Inv = try_reserve_from-Inv pf_a 1 200 0 (new 1000) (new-Inv 1000 (omega arith))

two-Inv : Inv two
unfolding try_reserve
two-Inv = try_reserve_from-Inv none 2 500 400_000_000_000 one one-Inv

-- As in the source's test: the same source is over its quota, another is not.
quota_sheds :
    ((try_reserve_from pf_a 2 100 0 one).0 ≡ err over_capacity)
    × ((try_reserve_from (some "pf-b") 3 200 0 one).0
        ≡ ok (record { request_id = 3; released = false }))
unfolding try_reserve_from new mul_ceil contains_key lookup insert ℕ_discrete String_discrete
quota_sheds = (refl, refl)

duplicate_refused : (try_reserve 1 5 0 one).0 ≡ err duplicate_request
unfolding try_reserve try_reserve_from new mul_ceil contains_key lookup insert ℕ_discrete
duplicate_refused = refl

-- The 300 seconds of request 1 are over at 400 s, and request 2 has just begun.
reclaim_first : (reclaim_expired 400_000_000_000 two).0 ≡ 1
unfolding reclaim_expired try_reserve try_reserve_from new mul_ceil contains_key lookup insert
    ℕ_discrete String_discrete
reclaim_first = refl

held-by-one :
    lookup 1 one.reservations ≡ some (record { bytes = 200; created = 0; source_label = pf_a })
unfolding try_reserve_from new mul_ceil contains_key lookup insert ℕ_discrete String_discrete
held-by-one = refl

new-Inv_example : Inv (new 1000)
new-Inv_example = new-Inv 1000 (omega arith)

try_reserve_from-Inv_example : Inv (try_reserve_from (some "pf-b") 3 200 0 one).1
try_reserve_from-Inv_example = try_reserve_from-Inv (some "pf-b") 3 200 0 one one-Inv

release-Inv_example : Inv (release 1 one)
release-Inv_example = release-Inv 1 one one-Inv

abbrev guard : ℕ → ReservationGuard
guard id = record { request_id = id; released = false }

held-by-two :
    lookup 1 two.reservations ≡ some (record { bytes = 200; created = 0; source_label = pf_a })
unfolding try_reserve try_reserve_from new mul_ceil contains_key lookup insert ℕ_discrete
    String_discrete
held-by-two = refl

Reach-new_example :
    ((release 1 one).reserved_bytes ≡ total entry_bytes (release 1 one).reservations)
    × ((release 1 one).reserved_bytes ≤ 1000)
    × ((label : String)
        → or_zero (lookup label (release 1 one).source_outstanding) ≤ (new 1000).max_per_source)
Reach-new_example =
    Reach-new 1000 (omega arith)
      (Reach.next (Reach.next Reach.here (Step.reserves pf_a 1 200 0)) (Step.releases 1))

one-listed : (id : ℕ) → lookup id one.reservations ≢ none → elem id (1 ∷ []) ≡ true
unfolding try_reserve_from new mul_ceil contains_key lookup insert ℕ_discrete String_discrete elem
one-listed id h = ground arith

-- A ledger of the largest capacity that is all but full.
abbrev full : ReservationLedger
full = (try_reserve 1 (u64_max - 10) 0 (new u64_max)).1

full-room : (full.reserved_bytes ≡ u64_max - 10) × (lookup 2 full.reservations ≡ none)
unfolding try_reserve try_reserve_from new mul_ceil contains_key lookup insert ℕ_discrete
full-room = (refl, refl)

full-capacity : full.capacity_bytes ≡ u64_max
unfolding try_reserve try_reserve_from new mul_ceil contains_key lookup insert ℕ_discrete
full-capacity = refl

try_reserve_from_wraps_example :
    let (outcome, l') = try_reserve_from none 2 11 0 full in
    (outcome ≡ ok (guard 2)) × (l'.reserved_bytes < full.reserved_bytes)
try_reserve_from_wraps_example =
    try_reserve_from_wraps 2 11 0 full full-capacity (omega (arith, full-room.0)) (omega arith)
      (omega (arith, full-room.0)) full-room.1
