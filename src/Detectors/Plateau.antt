-- ===== src/Detectors/Plateau.antt =====
-- backend/app/detectors/loss_plateau.py. `now` is the clock in seconds and `now_ms` is
-- `int(now * 1000)`; the steps of the training are small enough to be floating point numbers exactly.
use solprobe.Prelude.{
  ℕ, max, ◌/◌, String, ◌<>◌, Bool, false, not, Option, none, some, List, [], ◌∷◌, map,
  if◌then◌else◌, ltb, leb, string_eq, length, head?, last?,
}
use solprobe.Prelude.Int.{pos}
use solprobe.Prelude.Ring.{slice_last}
use solprobe.Prelude.Dict.{Dict, get, put, keep_items}
use solprobe.Models.Metrics.{TrainingMetrics}
use solprobe.Models.Alerts.{Anomaly}
use solprobe.Stores.Metrics.{get_node_ids, get_training_history}
use solprobe.Stores.World.{World, Env, emit}
use solprobe.Detectors.Policy.Readers.{job_or_none}
use solprobe.Detectors.Zscore.{Stats}
use solprobe.Detectors.Regression.{all_but_last}

abbrev pub window_steps : ℕ
window_steps = 50

abbrev pub warmup_steps : ℕ
warmup_steps = 20

abbrev pub baseline_window_steps : ℕ
baseline_window_steps = 200

-- `total` is np.sum, `round_to` rounds to a number of decimal places.
module _ (env : Env) (stats : Stats env.floats.F) (total : List env.floats.F → env.floats.F)
    (round_to : ℕ → env.floats.F → env.floats.F) where
  open env use {floats, uuid, show}
  open floats use {F, lt, le, sub, mul, div, abs, of_int, format, literal}
  open stats use {mean, median}

  abbrev threshold : F
  threshold = literal (pos 1) 4

  abbrev cooldown : F
  cooldown = literal (pos 3000) 1

  abbrev tiny : F
  tiny = literal (pos 1) 12

  -- (steps - s_mean) * (values - v_mean), entry by entry
  unfoldable pub products : F → F → List (F × F) → List F
  products s_mean v_mean [] = []
  products s_mean v_mean ((s, v) ∷ rest) =
      mul (sub s s_mean) (sub v v_mean) ∷ products s_mean v_mean rest

  -- `_linear_slope`
  unfoldable pub linear_slope : List (F × F) → F
  unfolding products
  linear_slope points =
      let steps = map (λ (p : F × F). p.0) points in
      let s_mean = mean steps in
      let v_mean = mean (map (λ (p : F × F). p.1) points) in
      let denom = total (map (λ s. mul (sub s s_mean) (sub s s_mean)) steps) in
      if lt denom tiny then literal (pos 0) 1 else div (total (products s_mean v_mean points)) denom

  abbrev throughputs : List (TrainingMetrics F) → List F
  throughputs history = map (λ m. m.throughput_tps) history

  abbrev window_of : List (TrainingMetrics F) → List (TrainingMetrics F)
  window_of history = slice_last window_steps history

  abbrev slope_of : List (TrainingMetrics F) → F
  slope_of history = linear_slope (map (λ m. (of_int (pos m.step), m.loss)) (window_of history))

  -- the median over the samples before the window, or over the window if there are none
  unfoldable pub baseline_median : F → List (TrainingMetrics F) → F
  unfolding slice_last
  baseline_median window_median [] = window_median
  baseline_median window_median (m ∷ rest) =
      median (throughputs (slice_last baseline_window_steps (m ∷ rest)))

  abbrev baseline_of : List (TrainingMetrics F) → F
  baseline_of history =
      baseline_median (median (throughputs (window_of history))) (all_but_last window_steps history)

  -- The guards on the samples, whose newest is `latest`.
  unfoldable pub is_flat : List (TrainingMetrics F) → TrainingMetrics F → Bool
  unfolding linear_slope baseline_median slice_last
  is_flat history latest =
      let window_median = median (throughputs (window_of history)) in
      if leb latest.step warmup_steps
      then false
      else if ltb (length history) window_steps
      then false
      else if le threshold (abs (slope_of history))
      then false
      else if le window_median (of_int (pos 0))
      then false
      else not (lt window_median (baseline_of history))

  -- round(0.9 - 0.2 * min(1.0, abs(slope) / max(threshold, 1e-12)), 4)
  unfoldable pub plateau_confidence : F → F
  plateau_confidence slope =
      let base = if lt threshold tiny then tiny else threshold in
      let x = div (abs slope) base in
      let ratio = if lt x (literal (pos 10) 1) then x else literal (pos 10) 1 in
      round_to 4 (sub (literal (pos 9) 1) (mul (literal (pos 2) 1) ratio))

  abbrev step_of : Option (TrainingMetrics F) → String
  step_of none = ""
  step_of (some m) = show m.step

  unfoldable pub plateau :
      String → ℕ → String → List (TrainingMetrics F) → TrainingMetrics F → Anomaly F
  unfolding plateau_confidence linear_slope baseline_median slice_last
  plateau id now_ms node_id history latest =
      let slope = slope_of history in
      let window = window_of history in
      record {
        alert = record {
          alert_id = id;
          node_id = node_id;
          timestamp_ms = now_ms;
          severity = "WARNING";
          source = "CENTRAL";
          alert_type = "loss_plateau";
          description =
              "Loss plateau on node "
              <> node_id
              <> ": slope="
              <> format ".2e" slope
              <> " over "
              <> show window_steps
              <> " steps (threshold="
              <> format ".0e" threshold
              <> ")";
          confidence = plateau_confidence slope;
          evidence =
              ("detector", "loss_plateau")
              ∷ ("slope", format ".6e" slope)
              ∷ ("threshold", format ".6e" threshold)
              ∷ ("window_steps", show window_steps)
              ∷ ("warmup_steps", show warmup_steps)
              ∷ ("throughput_median_window", format ".4f" (median (throughputs window)))
              ∷ ("throughput_median_baseline", format ".4f" (baseline_of history))
              ∷ ("step_start", step_of (head? window))
              ∷ ("step_end", step_of (last? window))
              ∷ [];
          gpu_index = none;
          job_id = job_or_none latest.job_id;
        };
        detector_name = "loss_plateau";
        window_minutes = max 1 (window_steps / 60);
        raw_score = slope;
      }

  abbrev cooling : Option F → F → Bool
  cooling none now = false
  cooling (some prev) now = lt (sub now prev) cooldown

  abbrev pub Checked : Type 0
  Checked = Option (Anomaly F) × World F × Dict String F

  -- The body of the loop over the nodes.
  unfoldable pub check_node : World F → Dict String F → F → ℕ → String → Checked
  unfolding is_flat plateau get put emit get_training_history
  check_node w last_alerted now now_ms node_id =
      let history = get_training_history w.metrics node_id 6 in
      elim (last? history) [
        | none ↦ (none, w, last_alerted)
        | some latest ↦
            let finding = plateau (uuid w.issued) now_ms node_id history latest in
            if not (is_flat history latest)
            then (none, w, last_alerted)
            else if cooling (get node_id last_alerted) now
            then (none, w, last_alerted)
            else (some finding, emit w finding, put node_id now last_alerted)
      ]

  abbrev found : Option (Anomaly F) → List (Anomaly F) → List (Anomaly F)
  found none later = later
  found (some a) later = a ∷ later

  unfoldable pub check_nodes :
      World F → Dict String F → F → ℕ → List String → List (Anomaly F) × World F × Dict String F
  unfolding check_node
  check_nodes w last_alerted now now_ms [] = ([], w, last_alerted)
  check_nodes w last_alerted now now_ms (node_id ∷ rest) =
      let (outcome, w', noted) = check_node w last_alerted now now_ms node_id in
      let (later, w'', after) = check_nodes w' noted now now_ms rest in
      (found outcome later, w'', after)

  unfoldable pub run_loss_plateau_detection :
      World F → Dict String F → F → ℕ → List (Anomaly F) × World F × Dict String F
  unfolding check_nodes get_node_ids keep_items
  run_loss_plateau_detection w last_alerted now now_ms =
      let (findings, w', noted) = check_nodes w last_alerted now now_ms (get_node_ids w.metrics) in
      (findings, w', keep_items (λ _ v. not (lt v (sub now (mul cooldown (of_int (pos 2)))))) noted)
