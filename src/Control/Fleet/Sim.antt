-- ===== src/Control/Fleet/Sim.antt =====
-- crates/demiurge-control/src/fleet_sim.rs: a trace is read, its windows become the knobs of a load,
-- and the gate on what the load measured. The reading of the file and of a line's JSON are arguments.
use mathlib.Core.Bool.{◌&&◌, ◌||◌}
use demiurge.Base.{
  ℕ, ◌*◌, ◌%◌, ◌^◌, min, max, ◌⊎◌, inl, inr, Bool, true, false, not, Option, none, some, List, [],
  ◌∷◌, ◌++◌, ltb, ◌==◌, if◌then◌else◌, length, map, filter, Bytes, bytes, trim, starts_with, split,
  ◌-◌, wrapping_add, saturating_add, saturating_mul, saturating_sub,
}
use demiurge.Base.Utf8.{is_whitespace}
use demiurge.Base.F64.{F64}
use demiurge.Control.Fleet.{TraceWindow, FleetPilotReport, point_biserial_corr}

module _ (D : F64) where
  pub record SimBaseKnobs : Type 0 where
    pub concurrency : ℕ
    pub requests_per_worker : ℕ
    pub base_prefill_delay_us : ℕ
    pub base_decode_delay_us : ℕ
    pub long_prompt_tokens : ℕ
    pub long_prompt_tokens_heavy : ℕ
    pub request_style : Bytes

  pub record WindowKnobs : Type 0 where
    pub prefill_fraction : D.F
    pub concurrency : ℕ
    pub requests_per_worker : ℕ
    pub request_style : Bytes
    pub long_prompt_tokens : ℕ
    pub prefill_delay_us : ℕ
    pub decode_delay_us : ℕ
    pub delay_window_mult : D.F

  pub record FleetWindowResult : Type 0 where
    pub ts_ms : ℕ
    pub prefill_heavy : Bool
    pub held_out : Bool
    pub ok : ℕ
    pub errors : ℕ
    pub errors_graceful : ℕ
    pub errors_hard : ℕ
    pub p99_us : ℕ
    pub dataplane_pi : D.F
    pub pi_star : D.F

  pub record FleetSimReport : Type 0 where
    pub windows : ℕ
    pub heldout_correlation : D.F
    pub live_pi_correlation : D.F
    pub gate_pass : Bool
    pub window_results : List FleetWindowResult

  -- A line without a row: it is empty or a comment.
  abbrev is_skipped : Bytes → Bool
  is_skipped line = length line == 0 || starts_with (bytes "#") line

  -- The loop over the lines, with what is read of the JSON of one: a row, or the text of an error.
  unfoldable pub rows : (Bytes → Bytes ⊎ TraceWindow D) → List Bytes → Bytes ⊎ List (TraceWindow D)
  rows from_str [] = inr []
  rows from_str (line ∷ raw) =
      let rest = rows from_str raw in
      let row : Bytes ⊎ List (TraceWindow D) = elim (from_str (trim is_whitespace line)) [
        | inl e ↦ inl (bytes "parse trace line: " ++ e)
        | inr w ↦ elim rest [ inl e ↦ inl e | inr ws ↦ inr (w ∷ ws) ]
      ] in
      if is_skipped (trim is_whitespace line) then rest else row

  non_empty : Bytes → List (TraceWindow D) → Bytes ⊎ List (TraceWindow D)
  non_empty path [] = inl (bytes "empty trace: " ++ path)
  non_empty path (w ∷ ws) = inr (w ∷ ws)

  -- On what is read of the file at the path. That `lines` drops a last piece that is empty, and the
  -- carriage return of a line, makes no difference, since such a piece is skipped and a line trimmed.
  unfoldable pub load_fleet_trace :
      (Bytes → Bytes ⊎ TraceWindow D) → Bytes → Bytes ⊎ Bytes → Bytes ⊎ List (TraceWindow D)
  unfolding rows non_empty split
  load_fleet_trace from_str path (inl e) = inl (bytes "read " ++ (path ++ (bytes ": " ++ e)))
  load_fleet_trace from_str path (inr raw) = elim (rows from_str (split (λ c. c == 10) raw)) [
    | inl e ↦ inl e
    | inr ws ↦ non_empty path ws
  ]

  unfoldable pub window_knobs : TraceWindow D → SimBaseKnobs → WindowKnobs
  window_knobs w base =
      let delay = λ (base_us : ℕ) (q : D.F). D.floor_u64 (
        D.max_of
          (D.mul (D.of_u64 base_us)
            (D.add (D.literal 3602879701896397 53) (D.mul q (D.literal 3602879701896397 51))))
          (D.literal 1 0)) in
      let load =
        D.clamp (D.add (D.add (D.literal 8106479329266893 54) w.q_prefill) w.q_decode)
          (D.literal 1 1) (D.literal 2 0) in
      record {
        prefill_fraction =
            if w.prefill_heavy
            then D.clamp (D.add (D.literal 3152519739159347 52) (D.mul w.q_prefill (D.literal 1 2)))
                (D.literal 2476979795053773 52) (D.literal 4278419646001971 52)
            else D.clamp
                (D.add (D.literal 3602879701896397 55)
                  (D.mul w.q_prefill (D.literal 3152519739159347 53)))
                (D.literal 3602879701896397 56) (D.literal 8106479329266893 54);
        concurrency =
            min (max (min (D.round_u64 (D.mul (D.of_u64 base.concurrency) load)) (2 ^ 32 - 1)) 4)
              64;
        requests_per_worker = base.requests_per_worker;
        request_style = base.request_style;
        long_prompt_tokens =
            if w.prefill_heavy then base.long_prompt_tokens_heavy else base.long_prompt_tokens;
        prefill_delay_us = delay base.base_prefill_delay_us w.q_prefill;
        decode_delay_us = delay base.base_decode_delay_us w.q_decode;
        delay_window_mult =
            D.clamp (D.add (D.add (D.literal 1 1) w.q_prefill) (D.mul w.q_decode (D.literal 1 1)))
              (D.literal 1 1) (D.literal 5 1);
      }

  unfoldable pub tier_delay_us : ℕ → ℕ → ℕ → D.F → ℕ
  tier_delay_us tier_index tier_count base_us window_mult =
      let skew = D.add (D.literal 1 0) (
        D.mul (D.div (D.of_u64 tier_index) (D.of_u64 (max tier_count 1)))
          (D.literal 5404319552844595 53)) in
      D.floor_u64 (D.max_of (D.mul (D.mul (D.of_u64 base_us) window_mult) skew) (D.literal 1 0))

  -- `map(f).sum()` over the windows of a label, which wraps in a release build
  unfoldable pub total : Bool → (FleetWindowResult → ℕ) → List FleetWindowResult → ℕ
  total heavy f [] = 0
  total heavy f (w ∷ ws) =
      let rest = total heavy f ws in
      let same = if heavy then w.prefill_heavy else not w.prefill_heavy in
      if same then wrapping_add (f w) rest else rest

  -- `map(test).unwrap_or(true)`
  abbrev passes : (D.F → Bool) → Option D.F → Bool
  passes test none = true
  passes test (some bound) = test bound

  unfoldable pub eval_fleet_sim_gate :
      FleetPilotReport D → List FleetWindowResult → D.F → Option D.F → Option D.F → FleetSimReport
  unfolding total filter
  eval_fleet_sim_gate pilot live min_shadow min_live max_heavy =
      let held = filter (λ (w : FleetWindowResult). w.held_out) live in
      let live_corr =
        point_biserial_corr D (map (λ w. w.dataplane_pi) held) (map (λ w. w.prefill_heavy) held) in
      let heavy_total = total true (λ w. wrapping_add w.ok w.errors) live in
      let light_total = total false (λ w. wrapping_add w.ok w.errors) live in
      let load_separation = ltb light_total heavy_total in
      let shadow_pass = pilot.gate_pass && D.le min_shadow pilot.heldout_correlation in
      let heavy_graceful = total true (λ w. w.errors_graceful) live in
      let heavy_shed_rate =
        if ltb 0 heavy_total
        then D.div (D.of_u64 heavy_graceful) (D.of_u64 heavy_total)
        else D.literal 0 0 in
      let heavy_shed_pass = passes (λ max. D.le heavy_shed_rate max) max_heavy in
      let live_pass = passes (λ min. D.le min live_corr) min_live in
      record {
        windows = length live;
        heldout_correlation = pilot.heldout_correlation;
        live_pi_correlation = live_corr;
        gate_pass = shadow_pass && load_separation && live_pass && heavy_shed_pass;
        window_results = live;
      }

unfoldable pub jitter_delay_us : ℕ → ℕ → ℕ → ℕ
jitter_delay_us delay_us jitter_us salt =
    let span = saturating_add (saturating_mul jitter_us 2) 1 in
    let delta = wrapping_add (salt * 1_103_515_245 % 2 ^ 64) 12345 % span in
    if jitter_us == 0 then delay_us else saturating_sub (saturating_add delay_us delta) jitter_us
