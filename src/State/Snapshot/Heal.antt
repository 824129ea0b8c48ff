-- ===== src/State/Snapshot/Heal.antt =====
-- The merge of two pools, label by label.
use demiurge.Base.{
  ℕ, ◌≡◌, refl, max, Option, none, some, [], ◌∷◌, String, String_discrete, Map, Distinct,
  string_key, ite, arith, Option-cases, inl, inr, ap,
}
use demiurge.Base.Maps.{lookup, lookup-insert}
use demiurge.State.Snapshot.{
  Doubles, BackendSnapshot, StateSnapshot, merge_backend, merge_entry, merge_pool, heal_merge,
}

-- What two replicas that know of a backend or not make of it.
abbrev pub merged :
    (D : Doubles)
    → Option (BackendSnapshot D)
    → Option (BackendSnapshot D)
    → Option (BackendSnapshot D)
merged D none remote = remote
merged D (some b) none = some b
merged D (some b) (some r) = some (merge_backend D b r)

lookup-merge_entry :
    (D : Doubles) (j label : String) (r : BackendSnapshot D)
    (local : Map String (BackendSnapshot D))
    → lookup j (merge_entry D label r local)
      ≡ ite (String_discrete j label) (merged D (lookup label local) (some r)) (lookup j local)
unfolding merge_entry
lookup-merge_entry D j label r local = elim (Option-cases (lookup label local)) [
  | inl e ↦ ground (arith, lookup-insert j label r local)
  | inr (b, e) ↦ ground (arith, lookup-insert j label (merge_backend D b r) local)
]

merge_step :
    (D : Doubles) (j label : String) (r : BackendSnapshot D)
    (local rest : Map String (BackendSnapshot D)) {out : Option (BackendSnapshot D)}
    → lookup label rest ≡ none
    → out ≡ merged D (lookup j (merge_entry D label r local)) (lookup j rest)
    → out ≡ merged D (lookup j local) (lookup j ((label, r) ∷ rest))
unfolding lookup
merge_step D j label r local rest fresh e = elim (String_discrete j label) [
  | yes same ↦ ground (arith, lookup-merge_entry D j label r local)
  | no other ↦ ground (arith, lookup-merge_entry D j label r local)
]

-- The merge goes label by label, whatever the order in which the remote's map is walked: a backend
-- that one side knows is kept, and one that both know is merged. The remote's labels are distinct.
pub lookup-merge_pool :
    (D : Doubles) (j : String) (local remote : Map String (BackendSnapshot D))
    → Distinct remote
    → lookup j (merge_pool D local remote) ≡ merged D (lookup j local) (lookup j remote)
unfolding merge_pool lookup
lookup-merge_pool D j local [] h = elim (Option-cases (lookup j local)) [
  | inl e ↦ ground arith
  | inr (b, e) ↦ ground arith
]
lookup-merge_pool D j local ((label, r) ∷ rest) h =
    merge_step D j label r local rest h.0
      (lookup-merge_pool D j (merge_entry D label r local) rest h.1)

-- What two replicas report of a backend: its occupancy and its live bytes.
abbrev pub telemetry : (D : Doubles) → Option (BackendSnapshot D) → Option (D.F × ℕ)
telemetry D none = none
telemetry D (some b) = some (b.occupancy, b.kv_bytes_live)

merged-telemetry :
    (D : Doubles) (x y : Option (BackendSnapshot D))
    → ((f g : D.F) → D.max_f f g ≡ D.max_f g f)
    → telemetry D (merged D x y) ≡ telemetry D (merged D y x)
unfolding merge_backend
merged-telemetry D none none h = refl
merged-telemetry D none (some r) h = refl
merged-telemetry D (some b) none h = refl
merged-telemetry D (some b) (some r) h = rw (h b.occupancy r.occupancy) (
    ap (λ n. some (D.max_f r.occupancy b.occupancy, n)) {x = max b.kv_bytes_live r.kv_bytes_live}
      {y = max r.kv_bytes_live b.kv_bytes_live} (omega arith))

-- After a partition two replicas that heal from each other agree: on the generation, and on which
-- backends there are, their occupancy and their live bytes. No label stands twice in a pool, and the
-- larger of two occupancies does not depend on their order.
pub heal_merge_converges :
    (D : Doubles) (a b : StateSnapshot D)
    → ((f g : D.F) → D.max_f f g ≡ D.max_f g f)
    → Distinct a.prefill
    → Distinct a.decode
    → Distinct b.prefill
    → Distinct b.decode
    → ((heal_merge D b a).generation ≡ (heal_merge D a b).generation)
      × ((j : String)
          → (telemetry D (lookup j (heal_merge D b a).prefill)
              ≡ telemetry D (lookup j (heal_merge D a b).prefill))
            × (telemetry D (lookup j (heal_merge D b a).decode)
                ≡ telemetry D (lookup j (heal_merge D a b).decode)))
unfolding heal_merge
heal_merge_converges D a b comm ha ha' hb hb' =
    (omega arith, λ j. (agree j a.prefill b.prefill ha hb, agree j a.decode b.decode ha' hb'))
  where
    agree :
        (j : String) (x y : Map String (BackendSnapshot D))
        → Distinct x
        → Distinct y
        → telemetry D (lookup j (merge_pool D x y)) ≡ telemetry D (lookup j (merge_pool D y x))
    agree j x y hx hy =
        rw (lookup-merge_pool D j x y hy, lookup-merge_pool D j y x hx)
          (merged-telemetry D (lookup j x) (lookup j y) comm)
