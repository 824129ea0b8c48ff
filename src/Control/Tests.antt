-- ===== src/Control/Tests.antt =====
-- Runs of the control plane over a stand-in for the doubles, thousandths as natural numbers, and each
-- theorem at a concrete input.
use demiurge.Base.{
  none, some, refl, All, same, String, ℕ, ◌+◌, ◌^◌, ◌≡◌, true, List, [], ◌∷◌, ltb, leb,
}
use demiurge.Base.F64.{thousandths, thousandths-IsMinimum}
use demiurge.Control.Rebalancer.{can_actuate, PoolPressure, PoolRebalancer}
use demiurge.Control.Graduation.{shadow, CorrectorShadowSample, GraduationGate}
use demiurge.Control.Pairing.{
  PairingTarget, prefill_cost, decode_cost, ScoredBackend, scored_target, greedy_pair, joint_ln,
  oracle_cost,
}
use demiurge.Control.Pairing.Oracle.{greedy_pair-oracle_cost}
use demiurge.State.Warmth.{default_routing_blocks}
use demiurge.Control.Graduation.Stages.{Window, run, streak, stage_of, run-stage_of}

-- All the pressure is on prefill.
abbrev pressure : PoolPressure thousandths
pressure = record {
  q_prefill = 1000;
  q_decode = 0;
  kv_decode = 0;
  slo_prefill = 0;
  slo_decode = 0;
  fp_share = 0;
}

abbrev rebalancer : PoolRebalancer thousandths
rebalancer = record { pi = 500; last_change = 0; mode = can_actuate }

abbrev calls : List (ℕ × PoolPressure thousandths)
calls = (5, pressure) ∷ (300_000_000_000, pressure) ∷ (300_000_000_001, pressure) ∷ []

abbrev gate : GraduationGate thousandths
gate = record { max_violations = 0; min_goodput_improvement = 10 }

abbrev sample : CorrectorShadowSample thousandths
sample = record {
  prompt_tokens = 512;
  analytic_ln = 1000;
  observed_us = 1100000;
  pool_pi = 500;
  backend_label = "dc0";
}

abbrev windows : List (Window thousandths)
windows = (sample ∷ [], 1) ∷ (sample ∷ [], 0) ∷ []

run-stage_of_example :
    run thousandths gate windows shadow ≡ stage_of (streak thousandths gate windows 0)
run-stage_of_example = run-stage_of thousandths gate windows

abbrev scored : String → ℕ → ScoredBackend thousandths
scored label seconds = record { label = label; base_service_seconds = seconds; inflight = 0 }

abbrev prefills : List (ScoredBackend thousandths)
prefills = scored "pf0" 10 ∷ scored "pf1" 50 ∷ []

abbrev decodes : List (ScoredBackend thousandths)
decodes = scored "dc0" 20 ∷ scored "dc1" 30 ∷ []

abbrev target : PairingTarget thousandths (ScoredBackend thousandths)
target = scored_target thousandths (λ message. message) (λ block salt. block + salt)

greedy_is :
    greedy_pair thousandths target prefills decodes none 2048 1050
    ≡ some (scored "pf0" 10, scored "dc0" 20)
unfolding greedy_pair prefill_cost decode_cost same
greedy_is = refl

all_finite :
    All
      (λ p.
        All
          (λ d.
            ltb (joint_ln thousandths target none (default_routing_blocks 2048) 1050 p d) (10 ^ 400)
            ≡ true)
          decodes)
      prefills
unfolding joint_ln prefill_cost decode_cost same
all_finite = ((refl, (refl, tt)), ((refl, (refl, tt)), tt))

greedy_pair-oracle_cost_example :
    leb
      (oracle_cost thousandths target
        (joint_ln thousandths target none (default_routing_blocks 2048) 1050)
        prefills
        decodes
        (10 ^ 400))
      (joint_ln thousandths target none
        (default_routing_blocks 2048)
        1050
        (scored "pf0" 10)
        (scored "dc0" 20))
    ≡ true
greedy_pair-oracle_cost_example =
    greedy_pair-oracle_cost thousandths thousandths-IsMinimum target prefills decodes none 2048 1050
      (scored "pf0" 10) (scored "dc0" 20) all_finite greedy_is
