-- ===== src/Control/Fleet/Tests.antt =====
-- A small trace, in thousandths, with its theorems.
use demiurge.Base.{
  ℕ, ◌+◌, ◌≡◌, refl, Bool, true, false, none, List, [], ◌∷◌, length, filter, bytes, inr, split,
  strip_prefix, trim, if◌then◌else◌,
}
use demiurge.Base.F64.{thousandths}
use demiurge.Control.Fleet.{TraceWindow, FleetPilotReport, replay_fleet_pilot}
use demiurge.Control.Fleet.Sim.{
  FleetWindowResult, eval_fleet_sim_gate, jitter_delay_us, load_fleet_trace,
}
use demiurge.Control.Fleet.HeldOut.{replay_fleet_pilot-held_out}
use demiurge.Control.Fleet.Jitter.{with_pi, eval_fleet_sim_gate-with_pi}

abbrev window : ℕ → Bool → Bool → TraceWindow thousandths
window ts_ms heavy held_out = record {
  ts_ms = ts_ms;
  q_prefill = if heavy then 920 else 180;
  q_decode = if heavy then 180 else 320;
  kv_decode = 200;
  slo_prefill = 0;
  slo_decode = 50;
  fp_share = 500;
  prefill_heavy = heavy;
  held_out = held_out;
}

abbrev trace : List (TraceWindow thousandths)
trace = window 0 true false ∷ window 60000 false true ∷ window 120000 true true ∷ []

replay_fleet_pilot-held_out_example :
    let report = replay_fleet_pilot thousandths 0 trace 100 in
    let alone = replay_fleet_pilot thousandths 0 (filter (λ w. w.held_out) trace) 100 in
    (report.train_windows + report.heldout_windows ≡ 3)
    × (report.heldout_windows ≡ alone.heldout_windows)
    × (report.heldout_correlation ≡ alone.heldout_correlation)
    × (report.heldout_mean_pi_heavy ≡ alone.heldout_mean_pi_heavy)
    × (report.heldout_mean_pi_light ≡ alone.heldout_mean_pi_light)
    × (report.gate_pass ≡ alone.gate_pass)
replay_fleet_pilot-held_out_example = replay_fleet_pilot-held_out thousandths 0 trace 100

jittered : jitter_delay_us 1000 100 7 ≡ 1020
unfolding jitter_delay_us
jittered = refl

abbrev result : Bool → ℕ → ℕ → FleetWindowResult thousandths
result heavy ok dataplane_pi = record {
  ts_ms = 0;
  prefill_heavy = heavy;
  held_out = true;
  ok = ok;
  errors = 0;
  errors_graceful = 0;
  errors_hard = 0;
  p99_us = 100;
  dataplane_pi = dataplane_pi;
  pi_star = 500;
}

abbrev pilot : FleetPilotReport thousandths
pilot = record {
  train_windows = 1;
  heldout_windows = 2;
  heldout_correlation = 500;
  heldout_mean_pi_heavy = 700;
  heldout_mean_pi_light = 300;
  gate_pass = true;
  replays = [];
}

-- The live share is lower where prefill is heavy, and the gate passes.
inverted :
    (eval_fleet_sim_gate thousandths pilot
      (result true 20 100 ∷ result false 10 900 ∷ [])
      450
      none
      none).gate_pass
    ≡ true
unfolding eval_fleet_sim_gate
inverted = refl

eval_fleet_sim_gate-with_pi_example :
    (eval_fleet_sim_gate thousandths pilot
      (with_pi thousandths (λ w. 0) (result true 20 800 ∷ result false 10 200 ∷ []))
      450
      none
      none).gate_pass
    ≡ (eval_fleet_sim_gate thousandths pilot
        (result true 20 800 ∷ result false 10 200 ∷ [])
        450
        none
        none).gate_pass
eval_fleet_sim_gate-with_pi_example =
    eval_fleet_sim_gate-with_pi thousandths pilot (result true 20 800 ∷ result false 10 200 ∷ [])
      (λ w. 0) 450 none

loaded :
    load_fleet_trace thousandths
      (λ line. inr (window (length line) true true))
      (bytes "t.jsonl")
      (inr (bytes "# note\n\n  {} \n"))
    ≡ inr (window 2 true true ∷ [])
unfolding load_fleet_trace split trim strip_prefix
loaded = refl
