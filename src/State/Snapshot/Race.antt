-- ===== src/State/Snapshot/Race.antt =====
-- `update_snapshot` loads the published snapshot, changes a copy and stores it, with no check that the
-- published one is still the one it loaded. The load and the store are one step each.
use demiurge.Base.{ℕ, ◌≡◌, refl, ite, ℕ_discrete, arith}
use demiurge.State.Snapshot.{Doubles, StateSnapshot}

module _ (D : Doubles) where
  -- Where a publisher stands.
  pub data Pc : Type 0 where
    idle : Pc
    loaded : StateSnapshot D → Pc

  pub record Plane : Type 0 where
    pub published : StateSnapshot D
    pub pc : ℕ → Pc

  abbrev pub set_pc : (ℕ → Pc) → ℕ → Pc → ℕ → Pc
  set_pc f i p j = ite (ℕ_discrete i j) p (f j)

  -- A publisher loads, or stores what an update makes of the snapshot that it loaded.
  pub data Publish (s : Plane) : Plane → Type 0 where
    load :
        (i : ℕ) → s.pc i ≡ idle → Publish s (record s { pc = set_pc s.pc i (loaded s.published) })
    store :
        (i : ℕ) (change : StateSnapshot D → StateSnapshot D) {snap : StateSnapshot D}
        → s.pc i ≡ loaded snap
        → Publish s (record { published = change snap; pc = set_pc s.pc i idle })

  pub data Run (s : Plane) : Plane → Type 0 where
    start : Run s s
    more : {t u : Plane} → Run s t → Publish t u → Run s u

  -- Alone, an update takes effect on what is published.
  pub update_alone :
      (s : Plane) (i : ℕ) (change : StateSnapshot D → StateSnapshot D)
      → s.pc i ≡ idle
      → (t : Plane) × Run s t × (t.published ≡ change s.published) × (t.pc i ≡ idle)
  update_alone s i change h = (
    record {
      published = change s.published;
      pc = set_pc (set_pc s.pc i (loaded s.published)) i idle;
    },
    more (more start (load i h)) (store i change (ground arith)),
    refl,
    ground arith,
  )
