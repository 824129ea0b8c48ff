-- ===== src/Control/Fleet/HeldOut.antt =====
-- What the pilot reports of the windows that were held out.
use demiurge.Base.{
  ℕ, ◌+◌, ◌≡◌, refl, ap, ◌∙◌, sym, true, false, not, List, [], ◌∷◌, length, map, filter,
  filter-filter, filter-map, arith,
}
use demiurge.Base.F64.{F64}
use demiurge.Control.Fleet.{
  TraceWindow, WindowReplay, replay, replay_fleet_pilot, mean_pi, point_biserial_corr,
}

module _ (D : F64) where
  filter-map-replay :
      (now : ℕ) (ws : List (TraceWindow D))
      → filter (λ (r : WindowReplay D). r.held_out) (map (replay D now) ws)
        ≡ map (replay D now) (filter (λ w. w.held_out) ws)
  unfolding replay
  filter-map-replay now ws = filter-map (replay D now) _ _ ws (λ w. refl)

  split_windows :
      (ws : List (TraceWindow D))
      → length (filter (λ w. not w.held_out) ws) + length (filter (λ w. w.held_out) ws) ≡ length ws
  unfolding filter
  split_windows [] = refl
  split_windows (w ∷ ws) = ground (arith, split_windows ws)

  -- Every window is for training or held out, and what the pilot reports beside the windows for training
  -- and the replays themselves, its verdict included, is what it reports of the windows that were held
  -- out alone.
  pub replay_fleet_pilot-held_out :
      (now : ℕ) (ws : List (TraceWindow D)) (min_correlation : D.F)
      → let report = replay_fleet_pilot D now ws min_correlation in
        let alone = replay_fleet_pilot D now (filter (λ w. w.held_out) ws) min_correlation in
        (report.train_windows + report.heldout_windows ≡ length ws)
        × (report.heldout_windows ≡ alone.heldout_windows)
        × (report.heldout_correlation ≡ alone.heldout_correlation)
        × (report.heldout_mean_pi_heavy ≡ alone.heldout_mean_pi_heavy)
        × (report.heldout_mean_pi_light ≡ alone.heldout_mean_pi_light)
        × (report.gate_pass ≡ alone.gate_pass)
  unfolding replay_fleet_pilot
  replay_fleet_pilot-held_out now ws min_correlation =
      let kept = filter (λ (w : TraceWindow D). w.held_out) ws in
      let same : filter (λ (r : WindowReplay D). r.held_out) (map (replay D now) ws)
          ≡ filter (λ (r : WindowReplay D). r.held_out) (map (replay D now) kept) =
        filter-map-replay now ws
        ∙ sym (filter-map-replay now kept ∙ ap (map (replay D now)) (filter-filter _ ws)) in
      let count : length kept ≡ length (filter (λ (w : TraceWindow D). w.held_out) kept) =
        ap length (sym (filter-filter _ ws)) in
      let corr =
        ap
          (λ (held : List (WindowReplay D)).
            point_biserial_corr D (map (λ r. r.pi_star) held) (map (λ r. r.prefill_heavy) held))
          same in
      let heavy = ap (mean_pi D true) same in
      let light = ap (mean_pi D false) same in
      (split_windows ws, count, corr, heavy, light, rw (corr, heavy, light, count) refl)
