-- ===== src/Detectors/Stalled.antt =====
-- backend/app/detectors/training_stalled.py. Times are seconds as floating point numbers, and
-- `now_ms` is `int(now * 1000)`.
pub mod Window
use solprobe.Prelude.{
  ℕ, max, String, ◌<>◌, Bool, true, false, not, ◌&&◌, Option, none, some, List, [], ◌∷◌, ◌++◌,
  reverse, if◌then◌else◌, ltb, ◌==◌, string_eq, nat_eq, pair_eq, length, head?, last?,
}
use solprobe.Prelude.Int.{pos, pos_part, sub_ℕ}
use solprobe.Prelude.Floats.{Floats}
use solprobe.Prelude.Dict.{Dict, get, put, keep_items}
use solprobe.Models.Metrics.{TrainingMetrics}
use solprobe.Models.Alerts.{Alert, Anomaly}
use solprobe.Stores.Jobs.{JobStore, get_job}
use solprobe.Stores.Metrics.{MetricsStore, get_node_ids, get_node_status, get_training_history}
use solprobe.Stores.World.{World, Env, emit}
use solprobe.Detectors.Policy.{Outcome, quiet, raised, fired}

abbrev pub min_samples : ℕ
min_samples = 3

-- (node_id, step, stalled_mode)
abbrev pub StallKey : Type 0
StallKey = String × (ℕ × String)

unfoldable pub job_is_running : JobStore → String → Bool
unfolding get_job
job_is_running jobs job_id = elim (get_job jobs job_id) [
  | none ↦ false
  | some entry ↦ entry.status == "running"
]

module _ {F : Type 0} where
  -- `for m in ...: if m.step != latest_step: break; window.append(m)`
  unfoldable pub same_step : ℕ → List (TrainingMetrics F) → List (TrainingMetrics F)
  same_step step [] = []
  same_step step (m ∷ rest) = if m.step == step then m ∷ same_step step rest else []

  -- `_trailing_same_step_window` walks back from the newest sample and reverses what it found.
  unfoldable pub trailing_same_step_window : List (TrainingMetrics F) → List (TrainingMetrics F)
  unfolding same_step
  trailing_same_step_window history = elim (last? history) [
    | none ↦ []
    | some latest ↦ reverse (same_step latest.step (reverse history))
  ]

  -- `window[-1].timestamp_ms` and `window[0].timestamp_ms`; the window is not empty.
  abbrev ts_of : Option (TrainingMetrics F) → ℕ
  ts_of none = 0
  ts_of (some m) = m.timestamp_ms

module _ (env : Env) where
  open env use {floats, uuid, show}
  open floats use {F, lt, le, sub, mul, div, of_int, to_int, format}

  abbrev natural : ℕ → F
  natural n = of_int (pos n)

  -- the difference of two time stamps, `/ 1000.0`
  abbrev seconds_between : ℕ → ℕ → F
  seconds_between late early = div (of_int (sub_ℕ late early)) (natural 1000)

  unfoldable pub node_is_fresh : MetricsStore F → String → ℕ → Bool
  unfolding get_node_status
  node_is_fresh metrics node_id now_ms = elim (get_node_status metrics node_id) [
    | none ↦ false
    | some status ↦ le (seconds_between now_ms status.last_seen_ms) (natural 30)
  ]

  unfoldable pub severity_of : F → String
  severity_of stalled_seconds = if le (natural 300) stalled_seconds then "CRITICAL" else "WARNING"

  -- `_make_alert`; `none` is the exception of `int`.
  unfoldable pub make_alert :
      String → String → ℕ → String → String → F → ℕ → String → ℕ → Option (Anomaly F)
  make_alert id node_id step job_id severity stalled_seconds samples_at_step stalled_mode now_ms =
      elim (to_int (div stalled_seconds (natural 60))) [
        | none ↦ none
        | some minutes ↦ some (record {
          alert = record {
            alert_id = id;
            node_id = node_id;
            timestamp_ms = now_ms;
            severity = severity;
            source = "CENTRAL";
            alert_type = "training_stalled";
            description =
                "Training step "
                <> show step
                <> " on node "
                <> node_id
                <> " has not advanced for "
                <> format ".1f" stalled_seconds
                <> "s ("
                <> show samples_at_step
                <> " samples)";
            confidence = natural 1;
            evidence =
                ("detector", "training_stalled")
                ∷ ("stalled_mode", stalled_mode)
                ∷ ("step", show step)
                ∷ ("stalled_seconds", format ".2f" stalled_seconds)
                ∷ ("samples_at_step", show samples_at_step)
                ∷ ("warn_seconds", format ".0f" (natural 60))
                ∷ ("critical_seconds", format ".0f" (natural 300))
                ∷ [];
            gpu_index = none;
            job_id = some job_id;
          };
          detector_name = "training_stalled";
          window_minutes = max 1 (pos_part minutes);
          raw_score = stalled_seconds;
        })
      ]

  -- The end of both branches, once a stall is to be reported: the time is noted under the key, and
  -- the alert is made and stored.
  unfoldable pub report_stall :
      World F
      → Dict StallKey F
      → F
      → ℕ
      → String
      → TrainingMetrics F
      → F
      → ℕ
      → String
      → Outcome F × World F × Dict StallKey F
  unfolding make_alert severity_of put
  report_stall w last_alerted now now_ms node_id latest stalled_seconds samples_at_step mode =
      let noted = put (node_id, (latest.step, mode)) now last_alerted in
      elim (make_alert (uuid w.issued) node_id latest.step latest.job_id
        (severity_of stalled_seconds) stalled_seconds samples_at_step mode now_ms) [
          | none ↦ (raised, w, noted)
          | some finding ↦ (fired finding, emit w finding, noted)
        ]

  -- the first branch: the node is alive, and no training sample comes any more
  unfoldable pub hard_stall :
      World F
      → Dict StallKey F
      → F
      → ℕ
      → String
      → TrainingMetrics F
      → F
      → Outcome F × World F × Dict StallKey F
  unfolding get report_stall
  hard_stall w last_alerted now now_ms node_id latest missing =
      let go =
        report_stall w last_alerted now now_ms node_id latest missing 1
          "no_fresh_training_sample" in
      elim (get (node_id, (latest.step, "no_fresh_training_sample")) last_alerted) [
        | none ↦ go
        | some prev ↦ if le (natural 60) (sub now prev) then go else (quiet, w, last_alerted)
      ]

  -- the second branch: samples come, and their step does not advance
  unfoldable pub soft_stall :
      World F
      → Dict StallKey F
      → F
      → ℕ
      → String
      → TrainingMetrics F
      → List (TrainingMetrics F)
      → Outcome F × World F × Dict StallKey F
  unfolding get report_stall
  soft_stall w last_alerted now now_ms node_id latest window =
      let stalled = seconds_between (ts_of (last? window)) (ts_of (head? window)) in
      let go =
        report_stall w last_alerted now now_ms node_id latest stalled (length window)
          "repeated_same_step" in
      if ltb (length window) min_samples
      then (quiet, w, last_alerted)
      else if lt stalled (natural 60)
      then (quiet, w, last_alerted)
      else elim (get (node_id, (latest.step, "repeated_same_step")) last_alerted) [
        | none ↦ go
        | some prev ↦ if lt (sub now prev) (natural 60) then (quiet, w, last_alerted) else go
      ]

  unfoldable pub check_latest :
      World F
      → Dict StallKey F
      → F
      → ℕ
      → String
      → List (TrainingMetrics F)
      → TrainingMetrics F
      → Outcome F × World F × Dict StallKey F
  unfolding node_is_fresh hard_stall soft_stall job_is_running trailing_same_step_window
  check_latest w last_alerted now now_ms node_id history latest =
      let missing = seconds_between now_ms latest.timestamp_ms in
      if latest.job_id == ""
      then (quiet, w, last_alerted)
      else if not (job_is_running w.job_registry latest.job_id)
      then (quiet, w, last_alerted)
      else if node_is_fresh w.metrics node_id now_ms && le (natural 60) missing
      then hard_stall w last_alerted now now_ms node_id latest missing
      else if ltb (length history) min_samples
      then (quiet, w, last_alerted)
      else soft_stall w last_alerted now now_ms node_id latest (trailing_same_step_window history)

  -- The body of the loop over the nodes.
  unfoldable pub check_node :
      World F → Dict StallKey F → F → ℕ → String → Outcome F × World F × Dict StallKey F
  unfolding check_latest get_training_history
  check_node w last_alerted now now_ms node_id =
      let history = get_training_history w.metrics node_id 15 in
      elim (last? history) [
        | none ↦ (quiet, w, last_alerted)
        | some latest ↦ check_latest w last_alerted now now_ms node_id history latest
      ]

  -- The loop; an exception ends it.
  unfoldable pub check_nodes :
      World F
      → Dict StallKey F
      → F
      → ℕ
      → List (Anomaly F)
      → List String
      → Option (List (Anomaly F)) × World F × Dict StallKey F
  unfolding check_node
  check_nodes w last_alerted now now_ms findings [] = (some findings, w, last_alerted)
  check_nodes w last_alerted now now_ms findings (node_id ∷ rest) =
      let (outcome, w', noted) = check_node w last_alerted now now_ms node_id in
      elim outcome [
        | quiet ↦ check_nodes w' noted now now_ms findings rest
        | raised ↦ (none, w', noted)
        | fired a ↦ check_nodes w' noted now now_ms (findings ++ a ∷ []) rest
      ]

  -- `v < cutoff` for `cutoff = now - 60 * 2`
  unfoldable pub forget_old : F → Dict StallKey F → Dict StallKey F
  unfolding keep_items
  forget_old now last_alerted =
      keep_items (λ _ v. not (lt v (sub now (mul (natural 60) (natural 2))))) last_alerted

  -- The eviction of old entries is not reached after an exception.
  unfoldable pub run_training_stalled_detection :
      World F → Dict StallKey F → F → ℕ → Option (List (Anomaly F)) × World F × Dict StallKey F
  unfolding check_nodes get_node_ids forget_old
  run_training_stalled_detection w last_alerted now now_ms =
      let (findings, w', noted) =
        check_nodes w last_alerted now now_ms [] (get_node_ids w.metrics) in
      elim findings [
        | none ↦ (none, w', noted)
        | some found ↦ (some found, w', forget_old now noted)
      ]
