-- ===== src/Ledger.antt =====
-- crates/demiurge-control/src/lib.rs: the fleet's reservation ledger. Each operation runs under the
-- `reservations` lock from its first read to its last write, so it is one step on the state; an
-- `Instant` is a number of nanoseconds, and the clock's reading is an argument.
pub mod Invariant
pub mod Reserve
pub mod Release
pub mod Reclaim
pub mod Resolve
pub mod History
mod Tests
use demiurge.Base.{
  ℕ, ◌*◌, max, Bool, true, false, Option, none, some, List, [], ◌∷◌, ◌++◌, String, Map, nat_key,
  string_key, ltb, leb, ◌==◌, if◌then◌else◌, length, pop_front, saturating_add, saturating_sub,
  wrapping_add, wrapping_sub,
}
use demiurge.Base.Maps.{lookup, contains_key, insert, remove}
use demiurge.Base.Float.{mul_ceil}
use demiurge.Migration.{MigrationDecision, commit, abort}
use demiurge.Cost.Params.{kv_max_outstanding_per_source_fraction, kv_abandoned_session_ttl_s}
use demiurge.Cost.Kv.{percentile90, kv_breakdown, fleet_marginal_bytes}

abbrev pub recent_samples : ℕ
recent_samples = 256

pub data AdmitError : Type 0 where
  over_capacity duplicate_request : AdmitError

pub record ReservationEntry : Type 0 where
  pub bytes : ℕ
  pub created : ℕ
  pub source_label : Option String

pub record ReservationLedger : Type 0 where
  pub capacity_bytes : ℕ
  pub max_per_source : ℕ
  pub reserved_bytes : ℕ
  pub admit_rejects : ℕ
  pub reservation_errors : ℕ
  pub reservations : Map ℕ ReservationEntry
  pub source_outstanding : Map String ℕ
  pub recent_sizes : List ℕ

pub record LedgerMetrics : Type 0 where
  pub kv_bytes_reserved : ℕ
  pub kv_admit_rejects_total : ℕ
  pub kv_reservation_error : ℕ

-- The RAII guard, less its pointer to the ledger.
pub record ReservationGuard : Type 0 where
  pub request_id : ℕ
  pub released : Bool

pub data Admission : Type 0 where
  ok : ReservationGuard → Admission
  err : AdmitError → Admission

-- The fraction is between 0 and 1, so the clamp leaves it alone.
unfoldable pub new : ℕ → ReservationLedger
new capacity_bytes =
    let frac = kv_max_outstanding_per_source_fraction in
    record {
      capacity_bytes = capacity_bytes;
      max_per_source = max (mul_ceil frac.0 frac.1 capacity_bytes) 1;
      reserved_bytes = 0;
      admit_rejects = 0;
      reservation_errors = 0;
      reservations = [];
      source_outstanding = [];
      recent_sizes = [];
    }

unfoldable pub p90_increment : ReservationLedger → ℕ
p90_increment l = percentile90 l.recent_sizes

-- The fleet bytes that `phi_barrier` weighs.
unfoldable pub phi_marginal_bytes : ReservationLedger → ℕ
unfolding p90_increment
phi_marginal_bytes l = fleet_marginal_bytes l.reserved_bytes (p90_increment l)

unfoldable pub metrics : ReservationLedger → LedgerMetrics
metrics l = record {
  kv_bytes_reserved = l.reserved_bytes;
  kv_admit_rejects_total = l.admit_rejects;
  kv_reservation_error = l.reservation_errors;
}

abbrev reject : AdmitError → ReservationLedger → Admission × ReservationLedger
reject e l = (err e, record l { admit_rejects = wrapping_add l.admit_rejects 1 })

-- `sources.get(label).copied().unwrap_or(0)`
abbrev pub or_zero : Option ℕ → ℕ
or_zero none = 0
or_zero (some n) = n

-- The per-source check: the sources after the admission, or `none` where the quota is exceeded.
pub charge_source : ℕ → Option String → ℕ → Map String ℕ → Option (Map String ℕ)
charge_source max_per_source none bytes sources = some sources
charge_source max_per_source (some label) bytes sources =
    let outstanding = or_zero (lookup label sources) in
    if ltb max_per_source (saturating_add outstanding bytes)
    then none
    else some (insert label (wrapping_add outstanding bytes) sources)

-- A ring of the last 256 sizes.
pub push_recent : ℕ → List ℕ → List ℕ
push_recent bytes recent =
    (if leb recent_samples (length recent) then pop_front recent else recent) ++ bytes ∷ []

-- The writes of a successful admission.
pub admit :
    Option String → ℕ → ℕ → ℕ → Map String ℕ → ReservationLedger → Admission × ReservationLedger
unfolding push_recent
admit source_label request_id bytes now sources l = (
  ok (record { request_id = request_id; released = false }),
  record l {
    reserved_bytes = wrapping_add l.reserved_bytes bytes;
    reservations =
        insert request_id (record { bytes = bytes; created = now; source_label = source_label })
          l.reservations;
    source_outstanding = sources;
    recent_sizes = push_recent bytes l.recent_sizes;
  },
)

unfoldable pub try_reserve_from :
    Option String → ℕ → ℕ → ℕ → ReservationLedger → Admission × ReservationLedger
unfolding charge_source admit
try_reserve_from source_label request_id bytes now l =
    if bytes == 0
    then reject over_capacity l
    else if contains_key request_id l.reservations
    then (err duplicate_request, l)
    else if ltb l.capacity_bytes (saturating_add l.reserved_bytes bytes)
    then reject over_capacity l
    else elim (charge_source l.max_per_source source_label bytes l.source_outstanding) [
      | none ↦ reject over_capacity l
      | some sources ↦ admit source_label request_id bytes now sources l
    ]

pub try_reserve : ℕ → ℕ → ℕ → ReservationLedger → Admission × ReservationLedger
try_reserve request_id bytes now l = try_reserve_from none request_id bytes now l

pub reserve_for_prompt : ℕ → ℕ → ℕ → ℕ → ReservationLedger → Admission × ReservationLedger
unfolding try_reserve
reserve_for_prompt request_id prompt_tokens bytes_per_token now l =
    try_reserve request_id (kv_breakdown prompt_tokens bytes_per_token).kv_reserved now l

-- The source's share is given back, and its entry dropped once it is 0.
pub discharge_source : Option String → ℕ → Map String ℕ → Map String ℕ
discharge_source none bytes sources = sources
discharge_source (some label) bytes sources = elim (lookup label sources) [
  | none ↦ sources
  | some out ↦
      let left = saturating_sub out bytes in
      if left == 0 then remove label sources else insert label left sources
]

pub release_inner : ℕ → ReservationLedger → Bool × ReservationLedger
unfolding discharge_source
release_inner request_id l = elim (lookup request_id l.reservations) [
  | none ↦ (false, record l { reservation_errors = wrapping_add l.reservation_errors 1 })
  | some entry ↦ (
    true,
    record l {
      reserved_bytes = wrapping_sub l.reserved_bytes entry.bytes;
      reservations = remove request_id l.reservations;
      source_outstanding = discharge_source entry.source_label entry.bytes l.source_outstanding;
    },
  )
]

unfoldable pub release : ℕ → ReservationLedger → ReservationLedger
unfolding release_inner
release request_id l = (release_inner request_id l).1

abbrev pub ttl : ℕ
ttl = kv_abandoned_session_ttl_s * 1_000_000_000

-- `now.duration_since(created)` is 0 for an instant that is later than `now`.
abbrev pub is_expired : ℕ → ReservationEntry → Bool
is_expired now e = leb ttl (saturating_sub now e.created)

-- The scan of `reclaim_expired`, which ends before the releases begin.
pub expired_ids : ℕ → Map ℕ ReservationEntry → List ℕ
expired_ids now [] = []
expired_ids now ((id, e) ∷ m) =
    let rest = expired_ids now m in if is_expired now e then id ∷ rest else rest

pub release_all : List ℕ → ReservationLedger → ReservationLedger
release_all [] l = l
release_all (id ∷ ids) l = release_all ids (release id l)

pub reclaim_expired : ℕ → ReservationLedger → ℕ × ReservationLedger
unfolding expired_ids release_all
reclaim_expired now l =
    let expired = expired_ids now l.reservations in (length expired, release_all expired l)

-- `ReservationGuard::release`, which marks the guard so that its drop does nothing.
pub guard_release : ReservationGuard → ReservationLedger → ReservationGuard × ReservationLedger
guard_release g l =
    if g.released then (g, l) else (record g { released = true }, release g.request_id l)

-- `Drop for ReservationGuard`
unfoldable pub guard_drop : ReservationGuard → ReservationLedger → ReservationLedger
guard_drop g l = if g.released then l else release g.request_id l

-- A guard that is released by value: the release, then the drop at the end of the call.
pub guard_consume : ReservationGuard → ReservationLedger → ReservationLedger
unfolding guard_release guard_drop
guard_consume g l = let (g', l') = guard_release g l in guard_drop g' l'

-- The surviving guard, and the ledger once the other is released.
pub resolve_migration :
    ReservationGuard
    → ReservationGuard
    → MigrationDecision
    → ReservationLedger
    → ReservationGuard × ReservationLedger
unfolding guard_consume
resolve_migration source target commit l = (target, guard_consume source l)
resolve_migration source target abort l = (source, guard_consume target l)
