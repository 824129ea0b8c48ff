-- ===== src/Ledger/Invariant.antt =====
-- The accounts of the ledger agree: what is reserved is the sum of the reservations, in all and for
-- each prefill source, and both stay within their limits.
use demiurge.Base.{
  ℕ, ◌*◌, ◌≤◌, ◌<◌, ◌≡◌, refl, ◌≢◌, ite, Option, none, some, String, Map, Distinct, nat_key,
  string_key, arith, length, u64_max, max,
}
use demiurge.Base.Maps.{String_discrete, lookup, total}
use demiurge.Base.Float.{mul_ceil, round53, round53_bounds}
use demiurge.Ledger.{ReservationEntry, ReservationLedger, new, or_zero, recent_samples}

-- What an entry holds of the bytes attributed to a source.
abbrev pub share : String → Option String → ℕ → ℕ
share label none bytes = 0
share label (some s) bytes = ite (String_discrete label s) bytes 0

abbrev pub of_source : String → ReservationEntry → ℕ
of_source label e = share label e.source_label e.bytes

abbrev pub entry_bytes : ReservationEntry → ℕ
entry_bytes e = e.bytes

-- The outstanding bytes of each source are those of its entries, within the quota, and a source
-- with none has no entry.
pub record SourcesAgree (quota : ℕ) (reservations : Map ℕ ReservationEntry) (sources : Map String ℕ)
    : Type 0 where
  pub outstanding :
      (label : String) → or_zero (lookup label sources) ≡ total (of_source label) reservations
  pub within : (label : String) → or_zero (lookup label sources) ≤ quota
  pub no_zero : (label : String) → lookup label sources ≢ some 0

pub record Inv (l : ReservationLedger) : Type 0 where
  pub bounded : l.capacity_bytes < u64_max
  pub quota_bounded : l.max_per_source < u64_max
  pub distinct : Distinct l.reservations
  pub reserved : l.reserved_bytes ≡ total entry_bytes l.reservations
  pub fits : l.reserved_bytes ≤ l.capacity_bytes
  pub sources : SourcesAgree l.max_per_source l.reservations l.source_outstanding
  pub recent : length l.recent_sizes ≤ recent_samples

-- A quarter of the capacity, rounded up; the rounding to 53 bits is within a part in 2 ^ 53.
quota_lt : (capacity : ℕ) → capacity < u64_max → max (mul_ceil 1 2 capacity) 1 < u64_max
unfolding mul_ceil
quota_lt capacity h = omega (arith, round53_bounds capacity, round53_bounds (round53 capacity * 1))

-- A new ledger is empty and consistent.
pub new-Inv : (capacity : ℕ) → capacity < u64_max → Inv (new capacity)
unfolding new total lookup
new-Inv capacity h = record {
  bounded = h;
  quota_bounded = quota_lt capacity h;
  distinct = tt;
  reserved = refl;
  fits = omega arith;
  sources = record { outstanding = λ _. refl; within = λ _. omega arith; no_zero = λ _ e. cc };
  recent = omega arith;
}
