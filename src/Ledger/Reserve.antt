-- ===== src/Ledger/Reserve.antt =====
-- `try_reserve_from`: when it admits, and that it keeps the accounts.
use demiurge.Base.{
  ℕ, ◌+◌, ◌≤◌, ◌<◌, ◌≡◌, refl, ap, ◌≢◌, ◌⊎◌, inl, inr, false, Option, none, some, String, Map, List,
  [], ◌∷◌, nat_key, string_key, arith, length, length-append, length-pop_front, u64_max,
  wrapping_add, pop_front, ◌↔◌,
}
use demiurge.Base.Maps.{
  lookup, contains_key, insert, lookup-insert, insert-Distinct, total-insert_new,
}
use demiurge.Ledger.{
  AdmitError, over_capacity, duplicate_request, ReservationEntry, ReservationLedger,
  ReservationGuard, Admission, ok, err, or_zero, recent_samples, charge_source, push_recent, admit,
  try_reserve_from,
}
use demiurge.Ledger.Invariant.{share, of_source, entry_bytes, SourcesAgree, Inv}

-- The per-source room for `bytes` more.
abbrev pub HasRoom : ReservationLedger → Option String → ℕ → Type 0
HasRoom l none bytes = Unit {0}
HasRoom l (some label) bytes =
    or_zero (lookup label l.source_outstanding) + bytes ≤ l.max_per_source

-- The conditions under which a request is admitted.
pub record Admissible (l : ReservationLedger) (source : Option String) (id bytes : ℕ) : Type 0 where
  pub positive : 0 < bytes
  pub fresh : lookup id l.reservations ≡ none
  pub within_capacity : l.reserved_bytes + bytes ≤ l.capacity_bytes
  pub within_quota : HasRoom l source bytes

abbrev pub charged : Option String → ℕ → Map String ℕ → Map String ℕ
charged none bytes sources = sources
charged (some label) bytes sources = insert label (or_zero (lookup label sources) + bytes) sources

pub or_zero-charged :
    (label : String) (source : Option String) (bytes : ℕ) (sources : Map String ℕ)
    → or_zero (lookup label (charged source bytes sources))
      ≡ or_zero (lookup label sources) + share label source bytes
or_zero-charged label none bytes sources = omega arith
or_zero-charged label (some s) bytes sources =
    ground (arith, lookup-insert label s (or_zero (lookup s sources) + bytes) sources)

charge_source-some :
    (source : Option String) (bytes : ℕ) (l : ReservationLedger)
    → l.max_per_source < u64_max
    → HasRoom l source bytes
    → charge_source l.max_per_source source bytes l.source_outstanding
      ≡ some (charged source bytes l.source_outstanding)
unfolding charge_source
charge_source-some none bytes l b h = refl
charge_source-some (some label) bytes l b h = ground arith

charge_source-none :
    (source : Option String) (bytes : ℕ) (l : ReservationLedger)
    → l.max_per_source < u64_max
    → ¬ HasRoom l source bytes
    → charge_source l.max_per_source source bytes l.source_outstanding ≡ none
unfolding charge_source
charge_source-none none bytes l b h = absurd (h tt)
charge_source-none (some label) bytes l b h = ground arith

-- A request that meets the conditions is admitted.
pub try_reserve_from-ok :
    (source : Option String) (id bytes now : ℕ) (l : ReservationLedger)
    → Inv l
    → Admissible l source id bytes
    → try_reserve_from source id bytes now l
      ≡ admit source id bytes now (charged source bytes l.source_outstanding) l
unfolding try_reserve_from contains_key
try_reserve_from-ok source id bytes now l v a =
    ground (arith, v.bounded, charge_source-some source bytes l v.quota_bounded a.within_quota)

pub admitted-Admissible :
    (source : Option String) (id bytes now : ℕ) (l : ReservationLedger) (g : ReservationGuard)
    → Inv l
    → (try_reserve_from source id bytes now l).0 ≡ ok g
    → Admissible l source id bytes
unfolding try_reserve_from charge_source contains_key
admitted-Admissible none id bytes now l g v h = record {
  positive = ground (arith, v.bounded);
  fresh = ground (arith, v.bounded);
  within_capacity = ground (arith, v.bounded);
  within_quota = tt;
}
admitted-Admissible (some label) id bytes now l g v h = record {
  positive = ground (arith, v.bounded);
  fresh = ground (arith, v.bounded);
  within_capacity = ground (arith, v.bounded);
  within_quota = ground (arith, v.quota_bounded);
}

-- A request is admitted exactly when it holds bytes, its id is free, and the fleet and its source
-- have room for it; its guard then carries the id.
pub try_reserve_from_admits :
    (source : Option String) (id bytes now : ℕ) (l : ReservationLedger)
    → Inv l
    → ((try_reserve_from source id bytes now l).0
        ≡ ok (record { request_id = id; released = false }))
      ↔ Admissible l source id bytes
unfolding admit
try_reserve_from_admits source id bytes now l v = (
  λ h. admitted-Admissible source id bytes now l _ v h,
  λ a. ap (λ r. r.0) (try_reserve_from-ok source id bytes now l v a),
)

-- A refusal leaves every account as it was: a duplicate changes nothing, any other refusal counts
-- one more reject.
pub try_reserve_from_refusal :
    (source : Option String) (id bytes now : ℕ) (l : ReservationLedger) (e : AdmitError)
    → (try_reserve_from source id bytes now l).0 ≡ err e
    → ((e ≡ duplicate_request)
        × (lookup id l.reservations ≢ none)
        × ((try_reserve_from source id bytes now l).1 ≡ l))
      ⊎ ((e ≡ over_capacity)
          × ((try_reserve_from source id bytes now l).1
              ≡ record l { admit_rejects = wrapping_add l.admit_rejects 1 }))
unfolding try_reserve_from contains_key admit
try_reserve_from_refusal source id bytes now l e h = ground arith

length-push_recent :
    (bytes : ℕ) (xs : List ℕ)
    → length xs ≤ recent_samples
    → length (push_recent bytes xs) ≤ recent_samples
unfolding push_recent
length-push_recent bytes xs h = ground (
  arith,
  length-append (pop_front xs) (bytes ∷ []),
  length-append xs (bytes ∷ []),
  length-pop_front xs,
)

module _ (id bytes now : ℕ) (l : ReservationLedger) (v : Inv l)
    (fresh : lookup id l.reservations ≡ none) where
  abbrev entry : Option String → ReservationEntry
  entry source = record { bytes = bytes; created = now; source_label = source }

  charged-SourcesAgree :
      (source : Option String)
      → HasRoom l source bytes
      → 0 < bytes
      → SourcesAgree l.max_per_source
          (insert id (entry source) l.reservations)
          (charged source bytes l.source_outstanding)
  charged-SourcesAgree none room p = record {
    outstanding = λ label. ground (
      arith,
      v.sources.outstanding label,
      total-insert_new (of_source label) id (entry none) l.reservations fresh,
    );
    within = v.sources.within;
    no_zero = v.sources.no_zero;
  }
  charged-SourcesAgree (some s) room p = record {
    outstanding = λ label. ground (
      arith,
      v.sources.outstanding label,
      lookup-insert label s (or_zero (lookup s l.source_outstanding) + bytes) l.source_outstanding,
      total-insert_new (of_source label) id (entry (some s)) l.reservations fresh,
    );
    within = λ label. ground (
      arith,
      v.sources.within label,
      lookup-insert label s (or_zero (lookup s l.source_outstanding) + bytes) l.source_outstanding,
    );
    no_zero = λ label. ground (
      arith,
      v.sources.no_zero label,
      lookup-insert label s (or_zero (lookup s l.source_outstanding) + bytes) l.source_outstanding,
    );
  }

  pub admit-Inv :
      (source : Option String)
      → Admissible l source id bytes
      → Inv (admit source id bytes now (charged source bytes l.source_outstanding) l).1
  unfolding admit
  admit-Inv source a = record {
    bounded = v.bounded;
    quota_bounded = v.quota_bounded;
    distinct = insert-Distinct id (entry source) l.reservations v.distinct;
    reserved = omega (
      arith,
      v.bounded,
      v.reserved,
      a.within_capacity,
      total-insert_new entry_bytes id (entry source) l.reservations fresh,
    );
    fits = omega (arith, v.bounded, a.within_capacity);
    sources = charged-SourcesAgree source a.within_quota a.positive;
    recent = length-push_recent bytes l.recent_sizes v.recent;
  }

Inv-reject : (n : ℕ) (l : ReservationLedger) → Inv l → Inv (record l { admit_rejects = n })
Inv-reject n l v = record {
  bounded = v.bounded;
  quota_bounded = v.quota_bounded;
  distinct = v.distinct;
  reserved = v.reserved;
  fits = v.fits;
  sources = v.sources;
  recent = v.recent;
}

pub Admission-cases :
    (r : Admission) → ((g : ReservationGuard) × (r ≡ ok g)) ⊎ ((e : AdmitError) × (r ≡ err e))
Admission-cases (ok g) = inl (g, refl)
Admission-cases (err e) = inr (e, refl)

-- On a ledger whose accounts agree, and whose capacity and quota of a source are below `u64::MAX`,
-- every admission and every refusal keeps the accounts: the fleet total stays the sum of the
-- reservations and within the capacity, and what a source holds stays the sum of its reservations and
-- within its quota.
pub try_reserve_from-Inv :
    (source : Option String) (id bytes now : ℕ) (l : ReservationLedger)
    → Inv l
    → Inv (try_reserve_from source id bytes now l).1
try_reserve_from-Inv source id bytes now l v =
    elim (Admission-cases (try_reserve_from source id bytes now l).0) [
      | inl (g, e) ↦
          let a = admitted-Admissible source id bytes now l g v e in
          rw (try_reserve_from-ok source id bytes now l v a)
            (admit-Inv id bytes now l v a.fresh source a)
      | inr (x, e) ↦ elim (try_reserve_from_refusal source id bytes now l x e) [
        | inl (_, _, same) ↦ rw same v
        | inr (_, counted) ↦ rw counted (Inv-reject _ l v)
      ]
    ]
