-- ===== src/Control/Fleet/Jitter.antt =====
-- The delays stay near what they are spread around, and the gate on a load's measures.
use demiurge.Base.{
  ℕ, ◌+◌, ◌*◌, ◌%◌, ◌^◌, ◌≤◌, ◌<◌, ◌≡◌, refl, Bool, true, false, Option, none, ◌-◌, List, [], ◌∷◌,
  wrapping_add, saturating_add, saturating_mul, arith,
}
use native.Mathlib.Nat.{mod-lt}
use demiurge.Base.F64.{F64}
use demiurge.Control.Fleet.{FleetPilotReport}
use demiurge.Control.Fleet.Sim.{FleetWindowResult, total, eval_fleet_sim_gate, jitter_delay_us}

spread :
    (x jitter_us : ℕ)
    → 2 * jitter_us < 2 ^ 64 - 1
    → x % saturating_add (saturating_mul jitter_us 2) 1 ≤ 2 * jitter_us
spread x jitter_us h =
    let span : saturating_add (saturating_mul jitter_us 2) 1 ≡ 2 * jitter_us + 1 = omega arith in
    let bounded : x % (2 * jitter_us + 1) < 2 * jitter_us + 1 = mod-lt x (omega arith) in
    rw span (omega (arith, bounded))

-- When the delay and twice the jitter fit in 64 bits, the delay is moved by the jitter at most, in
-- either direction, but not below 0.
pub jitter_delay_us_bounds :
    (delay_us jitter_us salt : ℕ)
    → delay_us + 2 * jitter_us < 2 ^ 64 - 1
    → (delay_us ≤ jitter_delay_us delay_us jitter_us salt + jitter_us)
      × (jitter_delay_us delay_us jitter_us salt ≤ delay_us + jitter_us)
unfolding jitter_delay_us
jitter_delay_us_bounds delay_us jitter_us salt h =
    let moved = salt * 1_103_515_245 % 2 ^ 64 + 12345 in
    ground (arith, spread (moved % 2 ^ 64) jitter_us (omega arith))

module _ (D : F64) where
  -- The windows, with other readings of the live share.
  pub with_pi :
      (FleetWindowResult D → D.F) → List (FleetWindowResult D) → List (FleetWindowResult D)
  with_pi pi [] = []
  with_pi pi (w ∷ live) = record w { dataplane_pi = pi w } ∷ with_pi pi live

  total-with_pi :
      (heavy : Bool) (f : FleetWindowResult D → ℕ) (pi : FleetWindowResult D → D.F)
      (live : List (FleetWindowResult D))
      → ((w : FleetWindowResult D) (x : D.F) → f (record w { dataplane_pi = x }) ≡ f w)
      → total D heavy f (with_pi pi live) ≡ total D heavy f live
  unfolding total with_pi
  total-with_pi heavy f pi [] h = refl
  total-with_pi heavy f pi (w ∷ live) h =
      ground (arith, h w (pi w), total-with_pi heavy f pi live h)

  -- Without a least correlation of the live share, the gate does not depend on the live share at all:
  -- with any other readings of it the verdict is the same.
  pub eval_fleet_sim_gate-with_pi :
      (pilot : FleetPilotReport D) (live : List (FleetWindowResult D))
      (pi : FleetWindowResult D → D.F) (min_shadow : D.F) (max_heavy : Option D.F)
      → (eval_fleet_sim_gate D pilot (with_pi pi live) min_shadow none max_heavy).gate_pass
        ≡ (eval_fleet_sim_gate D pilot live min_shadow none max_heavy).gate_pass
  unfolding eval_fleet_sim_gate
  eval_fleet_sim_gate-with_pi pilot live pi min_shadow max_heavy =
      let heavy = total-with_pi true (λ w. wrapping_add w.ok w.errors) pi live (λ w x. refl) in
      let light = total-with_pi false (λ w. wrapping_add w.ok w.errors) pi live (λ w x. refl) in
      let graceful = total-with_pi true (λ w. w.errors_graceful) pi live (λ w x. refl) in
      rw (heavy, light, graceful) refl
