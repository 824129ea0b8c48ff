-- ===== src/Ledger/Release.antt =====
-- `release_inner`: it gives back exactly what the entry holds, and undoes an admission.
use demiurge.Base.{
  ℕ, ◌-◌, ◌≤◌, ◌≡◌, refl, ap, ◌≢◌, inl, inr, ite, true, false, Option, none, some, String, Map,
  nat_key, string_key, arith, Option-cases, ℕ_discrete, wrapping_add,
}
use demiurge.Base.Maps.{
  lookup, insert, remove, lookup-insert, lookup-remove, lookup-insert_self, remove-Distinct,
  total-remove, le-total,
}
use demiurge.Ledger.{
  ReservationEntry, ReservationLedger, or_zero, discharge_source, admit, try_reserve_from,
  release_inner, release,
}
use demiurge.Ledger.Invariant.{share, of_source, entry_bytes, SourcesAgree, Inv}
use demiurge.Ledger.Reserve.{Admissible, charged, or_zero-charged, try_reserve_from-ok, admit-Inv}

-- What the source of an entry still holds after its release.
or_zero-discharge_source :
    (label : String) (source : Option String) (bytes : ℕ) (sources : Map String ℕ)
    → or_zero (lookup label (discharge_source source bytes sources))
      ≡ or_zero (lookup label sources) - share label source bytes
unfolding discharge_source
or_zero-discharge_source label none bytes sources = omega arith
or_zero-discharge_source label (some s) bytes sources = ground (
  arith,
  lookup-remove label s sources,
  lookup-insert label s (or_zero (lookup s sources) - bytes) sources,
)

discharge_source-no_zero :
    (label : String) (source : Option String) (bytes : ℕ) (sources : Map String ℕ)
    → lookup label sources ≢ some 0
    → lookup label (discharge_source source bytes sources) ≢ some 0
unfolding discharge_source
discharge_source-no_zero label none bytes sources h = h
discharge_source-no_zero label (some s) bytes sources h = ground (
  arith,
  lookup-remove label s sources,
  lookup-insert label s (or_zero (lookup s sources) - bytes) sources,
)

-- The ledger without the entry.
abbrev pub released : ℕ → ReservationEntry → ReservationLedger → ReservationLedger
released id e l = record l {
  reserved_bytes = l.reserved_bytes - e.bytes;
  reservations = remove id l.reservations;
  source_outstanding = discharge_source e.source_label e.bytes l.source_outstanding;
}

module _ (id : ℕ) (e : ReservationEntry) (l : ReservationLedger) (v : Inv l)
    (held : lookup id l.reservations ≡ some e) where
  discharge-SourcesAgree :
      SourcesAgree l.max_per_source
        (remove id l.reservations)
        (discharge_source e.source_label e.bytes l.source_outstanding)
  discharge-SourcesAgree = record {
    outstanding = λ label. omega (
      arith,
      v.sources.outstanding label,
      or_zero-discharge_source label e.source_label e.bytes l.source_outstanding,
      total-remove (of_source label) id e l.reservations v.distinct held,
    );
    within = λ label. omega (
      arith,
      v.sources.within label,
      or_zero-discharge_source label e.source_label e.bytes l.source_outstanding,
    );
    no_zero = λ label.
        discharge_source-no_zero label e.source_label e.bytes l.source_outstanding
          (v.sources.no_zero label);
  }

  bytes-le : e.bytes ≤ l.reserved_bytes
  bytes-le = omega (arith, v.reserved, le-total entry_bytes id e l.reservations held)

  -- The release of a held id succeeds, and takes its bytes from the total without wrapping.
  pub release_inner-held : release_inner id l ≡ (true, released id e l)
  unfolding release_inner
  release_inner-held = ground (arith, bytes-le, v.bounded, v.fits)

  pub released-Inv : Inv (released id e l)
  released-Inv = record {
    bounded = v.bounded;
    quota_bounded = v.quota_bounded;
    distinct = remove-Distinct id l.reservations v.distinct;
    reserved =
        omega (arith, v.reserved, total-remove entry_bytes id e l.reservations v.distinct held);
    fits = omega (arith, v.fits);
    sources = discharge-SourcesAgree;
    recent = v.recent;
  }

  pub release-held : release id l ≡ released id e l
  unfolding release
  release-held = ap (λ r. r.1) release_inner-held

pub release-missing :
    (id : ℕ) (l : ReservationLedger)
    → lookup id l.reservations ≡ none
    → release id l ≡ record l { reservation_errors = wrapping_add l.reservation_errors 1 }
unfolding release
release-missing id l h = ground arith

-- A release keeps the accounts, whether the id is held or not.
pub release-Inv : (id : ℕ) (l : ReservationLedger) → Inv l → Inv (release id l)
release-Inv id l v = elim (Option-cases (lookup id l.reservations)) [
  | inl missing ↦ rw (release-missing id l missing) (record {
    bounded = v.bounded;
    quota_bounded = v.quota_bounded;
    distinct = v.distinct;
    reserved = v.reserved;
    fits = v.fits;
    sources = v.sources;
    recent = v.recent;
  })
  | inr (e, held) ↦ rw (release-held id e l v held) (released-Inv id e l v held)
]

-- After a release the id is gone, and every other id has the entry that it had.
pub lookup-release :
    (j id : ℕ) (l : ReservationLedger)
    → lookup j (release id l).reservations ≡ ite (ℕ_discrete j id) none (lookup j l.reservations)
unfolding release
lookup-release j id l = ground (arith, lookup-remove j id l.reservations)

-- A second release of an id changes no account: it only counts an error.
pub release_twice :
    (id : ℕ) (l : ReservationLedger)
    → release_inner id (release id l) ≡ (
      false,
      record (release id l) {
        reservation_errors = wrapping_add (release id l).reservation_errors 1;
      },
    )
unfolding release_inner
release_twice id l = ground (arith, lookup-release id id l)

-- What two ledgers agree on when they hold the same reservations.
pub record SameAccounts (l m : ReservationLedger) : Type 0 where
  pub same_total : l.reserved_bytes ≡ m.reserved_bytes
  pub same_entries : (j : ℕ) → lookup j l.reservations ≡ lookup j m.reservations
  pub same_outstanding :
      (label : String)
      → or_zero (lookup label l.source_outstanding) ≡ or_zero (lookup label m.source_outstanding)
  pub same_errors : l.reservation_errors ≡ m.reservation_errors
  pub same_rejects : l.admit_rejects ≡ m.admit_rejects

pub release-try_reserve_from :
    (source : Option String) (id bytes now : ℕ) (l : ReservationLedger)
    → Inv l
    → Admissible l source id bytes
    → SameAccounts (release id (try_reserve_from source id bytes now l).1) l
unfolding admit
release-try_reserve_from source id bytes now l v a =
    rw (try_reserve_from-ok source id bytes now l v a) (
      rw
        (release-held id entry held_by (admit-Inv id bytes now l v a.fresh source a)
          (lookup-insert_self id entry l.reservations))
        (record {
          same_total = omega (arith, a.within_capacity, v.bounded);
          same_entries = λ j. ground (
            arith,
            a.fresh,
            lookup-remove j id (insert id entry l.reservations),
            lookup-insert j id entry l.reservations,
          );
          same_outstanding = λ label. omega (
            arith,
            or_zero-discharge_source label source bytes (charged source bytes l.source_outstanding),
            or_zero-charged label source bytes l.source_outstanding,
          );
          same_errors = refl;
          same_rejects = refl;
        }))
  where
    entry : ReservationEntry
    entry = record { bytes = bytes; created = now; source_label = source }

    held_by : ReservationLedger
    held_by = (admit source id bytes now (charged source bytes l.source_outstanding) l).1
