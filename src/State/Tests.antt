-- ===== src/State/Tests.antt =====
-- Runs of the warmth map and the snapshots, and each theorem at a concrete input.
use demiurge.Base.{
  ℕ, ◌+◌, ◌*◌, ◌^◌, ◌≡◌, ◌≢◌, refl, min, max, [], ◌∷◌, All, Bytes, String, String_discrete, Map,
  Distinct, string_key, nat_key, arith,
}
use demiurge.Base.Maps.{lookup}
use demiurge.Auth.{new, salt, resolve_domain_key, private_domain_key}
use demiurge.State.Warmth.{WarmthMap}
use demiurge.State.Snapshot.{
  Doubles, BackendSnapshot, StateSnapshot, new_backend, merge_pool, heal_merge,
}
use demiurge.State.Snapshot.Heal.{merged, telemetry, lookup-merge_pool, heal_merge_converges}
use demiurge.State.Snapshot.Race.{idle, Plane}

abbrev two_keys : WarmthMap
two_keys = record { keys = 5 ∷ 6 ∷ []; capacity = 2 }

-- Stand-ins for the MAC and for the hash of a block.
abbrev echo : Bytes → Bytes
echo message = message

abbrev mix : ℕ → ℕ → ℕ
mix block salt = block * 2 ^ 64 + salt

apart :
    All
      (λ j.
        mix j (salt echo (resolve_domain_key 1 7 5 new))
        ≢ mix 256 (salt echo (private_domain_key 2 0)))
      (0 ∷ 512 ∷ [])
unfolding salt
apart = (λ e. omega arith, (λ e. omega arith, tt))

-- Occupancies in thousandths.
abbrev thousandths : Doubles
thousandths = record { F = ℕ; zero_f = 0; clamp_unit = λ f. min f 1000; max_f = max }

abbrev pool : Map String (BackendSnapshot thousandths)
pool = ("d0", new_backend thousandths "d0" 10) ∷ ("d1", new_backend thousandths "d1" 20) ∷ []

abbrev other_pool : Map String (BackendSnapshot thousandths)
other_pool = ("d1", new_backend thousandths "d1" 30) ∷ []

pool-Distinct : Distinct pool
unfolding lookup String_discrete
pool-Distinct = (refl, (refl, tt))

other_pool-Distinct : Distinct other_pool
unfolding lookup
other_pool-Distinct = (refl, tt)

lookup-merge_pool_example :
    lookup "d1" (merge_pool thousandths other_pool pool)
    ≡ merged thousandths (lookup "d1" other_pool) (lookup "d1" pool)
lookup-merge_pool_example = lookup-merge_pool thousandths "d1" other_pool pool pool-Distinct

abbrev here : StateSnapshot thousandths
here = record { generation = 3; prefill = []; decode = pool }

abbrev there : StateSnapshot thousandths
there = record { generation = 5; prefill = []; decode = other_pool }

heal_merge_converges_example :
    ((heal_merge thousandths there here).generation
      ≡ (heal_merge thousandths here there).generation)
    × ((j : String)
        → (telemetry thousandths (lookup j (heal_merge thousandths there here).prefill)
            ≡ telemetry thousandths (lookup j (heal_merge thousandths here there).prefill))
          × (telemetry thousandths (lookup j (heal_merge thousandths there here).decode)
              ≡ telemetry thousandths (lookup j (heal_merge thousandths here there).decode)))
heal_merge_converges_example =
    heal_merge_converges thousandths here there (λ f g. omega arith) tt pool-Distinct tt
      other_pool-Distinct

abbrev plane : Plane thousandths
plane = record { published = here; pc = λ _. idle }
