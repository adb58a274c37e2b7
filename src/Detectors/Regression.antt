-- ===== src/Detectors/Regression.antt =====
-- backend/app/detectors/throughput_regression.py. `now` is the clock in seconds and `now_ms` is
-- `int(now * 1000)`; `round_to` rounds to a number of decimal places.
pub mod Cooldown
use solprobe.Prelude.{
  ℕ, ◌+◌, ◌-◌, max, ◌/◌, String, ◌<>◌, Bool, true, false, not, Option, none, some, List, [], ◌∷◌,
  ◌++◌, map, if◌then◌else◌, ltb, ◌==◌, string_eq, length, take, last?, ◌≡◌, refl,
}
use solprobe.Prelude.Int.{pos}
use solprobe.Prelude.Floats.{Floats}
use solprobe.Prelude.Ring.{slice_last}
use solprobe.Prelude.Dict.{Dict, get, put, keep_items, get-put_self}
use solprobe.Models.Metrics.{TrainingMetrics}
use solprobe.Models.Alerts.{Alert, Anomaly}
use solprobe.Stores.Metrics.{get_node_ids, get_training_history}
use solprobe.Stores.World.{World, Env, emit}
use solprobe.Detectors.Policy.Readers.{job_or_none}
use solprobe.Detectors.Zscore.{Stats}

abbrev pub baseline_samples : ℕ
baseline_samples = 200

abbrev pub recent_samples : ℕ
recent_samples = 30

-- xs[:-n] for a list of more than n
abbrev pub all_but_last {ℓ} : {A : Type ℓ} → ℕ → List A → List A
all_but_last n xs = take (length xs - n) xs

module _ (env : Env) (stats : Stats env.floats.F) (round_to : ℕ → env.floats.F → env.floats.F) where
  open env use {floats, uuid, show}
  open floats use {F, lt, le, add, sub, mul, div, of_int, format, literal}
  open stats use {median}

  abbrev ratio_limit : F
  ratio_limit = literal (pos 7) 1

  abbrev cooldown : F
  cooldown = literal (pos 1200) 1

  abbrev median_of : List (TrainingMetrics F) → F
  median_of history = median (map (λ m. m.throughput_tps) history)

  abbrev pub recent_median : List (TrainingMetrics F) → F
  recent_median history = median_of (slice_last recent_samples history)

  abbrev pub baseline_median : List (TrainingMetrics F) → F
  baseline_median history =
      median_of (slice_last baseline_samples (all_but_last recent_samples history))

  -- round(min(0.9, 0.7 + max(0.0, limit - ratio) * 0.4), 4)
  unfoldable pub regression_confidence : F → F
  regression_confidence ratio =
      let gap = sub ratio_limit ratio in
      let positive = if lt (literal (pos 0) 1) gap then gap else literal (pos 0) 1 in
      let raw = add (literal (pos 7) 1) (mul positive (literal (pos 4) 1)) in
      round_to 4 (if lt raw (literal (pos 9) 1) then raw else literal (pos 9) 1)

  unfoldable pub regression : String → ℕ → String → F → F → Option String → Anomaly F
  unfolding regression_confidence
  regression id now_ms node_id recent baseline job =
      let ratio = div recent baseline in
      record {
        alert = record {
          alert_id = id;
          node_id = node_id;
          timestamp_ms = now_ms;
          severity = "WARNING";
          source = "CENTRAL";
          alert_type = "throughput_regression";
          description =
              "Throughput regression on node "
              <> node_id
              <> ": recent median "
              <> format ".1f" recent
              <> " tok/s is "
              <> format ".0%" ratio
              <> " of baseline "
              <> format ".1f" baseline
              <> " tok/s (threshold="
              <> format ".0%" ratio_limit
              <> ")";
          confidence = regression_confidence ratio;
          evidence =
              ("detector", "throughput_regression")
              ∷ ("recent_median", format ".4f" recent)
              ∷ ("baseline_median", format ".4f" baseline)
              ∷ ("ratio", format ".4f" ratio)
              ∷ ("threshold_ratio", format ".4f" ratio_limit)
              ∷ ("recent_samples", show recent_samples)
              ∷ ("baseline_samples", show baseline_samples)
              ∷ [];
          gpu_index = none;
          job_id = job;
        };
        detector_name = "throughput_regression";
        window_minutes = max 1 (baseline_samples / 60);
        raw_score = ratio;
      }

  -- The guards on the samples.
  unfoldable pub has_regressed : List (TrainingMetrics F) → Bool
  unfolding slice_last
  has_regressed history =
      let baseline = baseline_median history in
      if ltb (length history) (baseline_samples + recent_samples)
      then false
      else if le baseline (of_int (pos 0))
      then false
      else not (le (mul baseline ratio_limit) (recent_median history))

  -- `prev is not None and (now - prev) < _DEDUP_COOLDOWN_SECONDS`
  abbrev pub cooling : Option F → F → Bool
  cooling none now = false
  cooling (some prev) now = lt (sub now prev) cooldown

  abbrev pub Checked : Type 0
  Checked = Option (Anomaly F) × World F × Dict String F

  abbrev pub job_of : Option (TrainingMetrics F) → Option String
  job_of none = none
  job_of (some m) = job_or_none m.job_id

  -- The body of the loop over the nodes.
  unfoldable pub check_node : World F → Dict String F → F → ℕ → String → Checked
  unfolding has_regressed regression get put emit get_training_history slice_last
  check_node w last_alerted now now_ms node_id =
      let history = get_training_history w.metrics node_id 5 in
      let finding =
        regression (uuid w.issued) now_ms node_id (recent_median history) (baseline_median history)
          (job_of (last? history)) in
      if not (has_regressed history)
      then (none, w, last_alerted)
      else if cooling (get node_id last_alerted) now
      then (none, w, last_alerted)
      else (some finding, emit w finding, put node_id now last_alerted)

  abbrev found : Option (Anomaly F) → List (Anomaly F) → List (Anomaly F)
  found none later = later
  found (some a) later = a ∷ later

  unfoldable pub check_nodes :
      World F → Dict String F → F → ℕ → List String → List (Anomaly F) × World F × Dict String F
  unfolding check_node
  check_nodes w last_alerted now now_ms [] = ([], w, last_alerted)
  check_nodes w last_alerted now now_ms (node_id ∷ rest) =
      let (outcome, w', noted) = check_node w last_alerted now now_ms node_id in
      let (later, w'', after) = check_nodes w' noted now now_ms rest in
      (found outcome later, w'', after)

  unfoldable pub run_throughput_regression_detection :
      World F → Dict String F → F → ℕ → List (Anomaly F) × World F × Dict String F
  unfolding check_nodes get_node_ids keep_items
  run_throughput_regression_detection w last_alerted now now_ms =
      let (findings, w', noted) = check_nodes w last_alerted now now_ms (get_node_ids w.metrics) in
      (findings, w', keep_items (λ _ v. not (lt v (sub now (mul cooldown (of_int (pos 2)))))) noted)
