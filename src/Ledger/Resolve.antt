-- ===== src/Ledger/Resolve.antt =====
-- `resolve_migration`: of the two reservations that a migration holds, one survives.
use demiurge.Base.{ℕ, ◌+◌, ◌≡◌, refl, ◌≢◌, true, false, none, some, nat_key, arith}
use demiurge.Base.Maps.{lookup, le-total}
use demiurge.Migration.{MigrationDecision, commit, abort}
use demiurge.Ledger.{
  ReservationEntry, ReservationLedger, ReservationGuard, release, guard_consume, resolve_migration,
}
use demiurge.Ledger.Invariant.{Inv, entry_bytes}
use demiurge.Ledger.Release.{lookup-release, release-Inv, release-held}

-- A guard that is released by value releases its id once; one that was released before, never.
pub guard_consume_once :
    (g : ReservationGuard) (l : ReservationLedger)
    → guard_consume g l ≡ (elim g.released [ true ↦ l | false ↦ release g.request_id l ])
unfolding guard_consume
guard_consume_once g l = ground arith

abbrev pub kept : MigrationDecision → ReservationGuard → ReservationGuard → ReservationGuard
kept commit source target = target
kept abort source target = source

abbrev pub lost : MigrationDecision → ReservationGuard → ReservationGuard → ReservationGuard
lost commit source target = source
lost abort source target = target

resolve_migration_lem :
    (d : MigrationDecision) (source target : ReservationGuard) (l : ReservationLedger)
    → (lost d source target).released ≡ false
    → resolve_migration source target d l
      ≡ (kept d source target, release (lost d source target).request_id l)
unfolding resolve_migration
resolve_migration_lem commit source target l h = ground (arith, guard_consume_once source l)
resolve_migration_lem abort source target l h = ground (arith, guard_consume_once target l)

release-reserved :
    (id : ℕ) (e : ReservationEntry) (l : ReservationLedger)
    → Inv l
    → lookup id l.reservations ≡ some e
    → (release id l).reserved_bytes + e.bytes ≡ l.reserved_bytes
release-reserved id e l v held =
    rw (release-held id e l v held)
      (omega (arith, v.reserved, le-total entry_bytes id e l.reservations held))

-- A commit keeps the target and an abort the source: the guard that stays is handed back with its
-- entry untouched, the other's entry is gone and its bytes are given back, and the accounts agree.
pub resolve_migration_single :
    (d : MigrationDecision) (source target : ReservationGuard) (e : ReservationEntry)
    (l : ReservationLedger)
    → Inv l
    → source.request_id ≢ target.request_id
    → (lost d source target).released ≡ false
    → lookup (lost d source target).request_id l.reservations ≡ some e
    → let (survivor, l') = resolve_migration source target d l in
      (survivor ≡ kept d source target)
      × (lookup survivor.request_id l'.reservations ≡ lookup survivor.request_id l.reservations)
      × (lookup (lost d source target).request_id l'.reservations ≡ none)
      × (l'.reserved_bytes + e.bytes ≡ l.reserved_bytes)
      × Inv l'
resolve_migration_single d source target e l v ne live held =
    rw (resolve_migration_lem d source target l live) (
      refl,
      untouched d ne,
      ground (arith, lookup-release lost_id lost_id l),
      release-reserved lost_id e l v held,
      release-Inv lost_id l v,
    )
  where
    lost_id : ℕ
    lost_id = (lost d source target).request_id

    untouched :
        (x : MigrationDecision)
        → source.request_id ≢ target.request_id
        → lookup
            (kept x source target).request_id
            (release (lost x source target).request_id l).reservations
          ≡ lookup (kept x source target).request_id l.reservations
    untouched commit n = ground (arith, lookup-release target.request_id source.request_id l)
    untouched abort n = ground (arith, lookup-release source.request_id target.request_id l)
