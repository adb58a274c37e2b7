-- ===== src/Detectors/CrossNode.antt =====
-- backend/app/detectors/cross_node.py. `now_ms` is `int(time.time() * 1000)`, and `show_list` the
-- text of a list of texts.
pub mod Correlated
use solprobe.Prelude.{
  ℕ, ◌/◌, String, ◌<>◌, Bool, true, false, not, ◌&&◌, Option, none, some, List, [], ◌∷◌, ◌++◌, map,
  if◌then◌else◌, ltb, ◌==◌, string_eq, length, filter_by, contains,
}
use solprobe.Prelude.Int.{pos, sub_ℕ, ltb_ℤ}
use solprobe.Prelude.Floats.{Floats}
use solprobe.Prelude.Ring.{slice_last}
use solprobe.Prelude.Dict.{Dict, values}
use solprobe.Models.Alerts.{Alert, Anomaly}
use solprobe.Stores.Alerts.{query}
use solprobe.Stores.Metrics.{get_node_ids}
use solprobe.Stores.Metrics.Series.{get_training_metric_series}
use solprobe.Stores.World.{World, Env, emit}
use solprobe.Detectors.Instability.{join}
use solprobe.Detectors.Zscore.{Stats}

abbrev pub correlation_window_ms : ℕ
correlation_window_ms = 30000

module _ {F : Type 0} where
  -- `a.timestamp_ms >= window_start and a.source != "CENTRAL"`
  unfoldable pub is_recent : ℕ → Alert F → Bool
  is_recent now_ms a =
      not (ltb_ℤ (pos a.timestamp_ms) (sub_ℕ now_ms correlation_window_ms))
      && not (a.source == "CENTRAL")

  unfoldable pub recent_in_window : World F → ℕ → List (Alert F)
  unfolding is_recent query
  recent_in_window w now_ms = filter_by (is_recent now_ms) (query w.alert_log none none none 200)

  -- The keys of the grouping, in the order of their first alerts.
  unfoldable pub nodes_with_alerts : List String → List (Alert F) → List String
  nodes_with_alerts nodes [] = nodes
  nodes_with_alerts nodes (a ∷ rest) =
      if contains nodes a.node_id
      then nodes_with_alerts nodes rest
      else nodes_with_alerts (nodes ++ a.node_id ∷ []) rest

  -- `alert_store.add` and `anomaly_store.add` for each finding
  unfoldable pub emit_all : World F → List (Anomaly F) → World F
  unfolding emit
  emit_all w [] = w
  emit_all w (a ∷ rest) = emit_all (emit w a) rest

module _ (env : Env) (stats : Stats env.floats.F) (show_list : List String → String) where
  open env use {floats, uuid, show}
  open floats use {F, lt, sub, div, of_int, format, literal}
  open stats use {mean}

  abbrev one : F
  one = literal (pos 10) 1

  -- min(1.0, x)
  abbrev at_most_one : F → F
  at_most_one x = if lt x one then x else one

  abbrev mean_of_last : List F → Option F
  mean_of_last [] = none
  mean_of_last (x ∷ xs) = some (mean (slice_last 30 (x ∷ xs)))

  -- The throughput of each node that has any.
  unfoldable pub node_throughputs : World F → List String → Dict String F
  unfolding get_training_metric_series slice_last
  node_throughputs w [] = []
  node_throughputs w (node_id ∷ rest) =
      let later = node_throughputs w rest in
      elim (mean_of_last (get_training_metric_series floats w.metrics node_id "throughput_tps" 5)) [
        | none ↦ later
        | some x ↦ (node_id, x) ∷ later
      ]

  unfoldable pub straggler : String → ℕ → String → F → F → Anomaly F
  straggler id now_ms node_id throughput cluster_mean =
      let ratio = div throughput cluster_mean in
      record {
        alert = record {
          alert_id = id;
          node_id = node_id;
          timestamp_ms = now_ms;
          severity = "WARNING";
          source = "CENTRAL";
          alert_type = "straggler_detected";
          description =
              "Node throughput ("
              <> format ".1f" throughput
              <> " tok/s) is "
              <> format ".0%" ratio
              <> " of cluster mean ("
              <> format ".1f" cluster_mean
              <> " tok/s)";
          confidence = at_most_one (div (sub one ratio) (literal (pos 5) 1));
          evidence =
              ("detector", "cross_node")
              ∷ ("node_throughput", format ".2f" throughput)
              ∷ ("cluster_mean", format ".2f" cluster_mean)
              ∷ ("ratio", format ".4f" ratio)
              ∷ [];
          gpu_index = none;
          job_id = none;
        };
        detector_name = "cross_node";
        window_minutes = 5;
        raw_score = ratio;
      }

  -- The loop over the throughputs; `now_ms` is the clock at each node.
  unfoldable pub report_stragglers :
      World F → (String → ℕ) → F → Dict String F → List (Anomaly F) × World F
  unfolding straggler emit
  report_stragglers w now_ms cluster_mean [] = ([], w)
  report_stragglers w now_ms cluster_mean ((node_id, throughput) ∷ rest) =
      let finding = straggler (uuid w.issued) (now_ms node_id) node_id throughput cluster_mean in
      let skipped = report_stragglers w now_ms cluster_mean rest in
      let (later, w') = report_stragglers (emit w finding) now_ms cluster_mean rest in
      if lt (div throughput cluster_mean) (literal (pos 80) 2)
      then (finding ∷ later, w')
      else skipped

  unfoldable pub detect_stragglers : World F → (String → ℕ) → List (Anomaly F) × World F
  unfolding node_throughputs report_stragglers get_node_ids
  detect_stragglers w now_ms =
      let throughputs = node_throughputs w (get_node_ids w.metrics) in
      let cluster_mean = mean (values throughputs) in
      if ltb (length (get_node_ids w.metrics)) 2
      then ([], w)
      else if ltb (length throughputs) 2
      then ([], w)
      else if lt cluster_mean (literal (pos 1) 9)
      then ([], w)
      else report_stragglers w now_ms cluster_mean throughputs

  unfoldable pub correlated_failure : String → ℕ → List String → ℕ → String → Anomaly F
  unfolding join
  correlated_failure id now_ms affected alert_count node_id = record {
    alert = record {
      alert_id = id;
      node_id = node_id;
      timestamp_ms = now_ms;
      severity = "CRITICAL";
      source = "CENTRAL";
      alert_type = "nccl_timeout";
      description =
          "Correlated failures detected across "
          <> show (length affected)
          <> " nodes within "
          <> show (correlation_window_ms / 1000)
          <> "s: "
          <> show_list affected;
      confidence = at_most_one (div (of_int (pos (length affected))) (literal (pos 40) 1));
      evidence =
          ("detector", "cross_node_correlation")
          ∷ ("affected_nodes", join "," affected)
          ∷ ("alert_count", show alert_count)
          ∷ ("window_seconds", show (correlation_window_ms / 1000))
          ∷ [];
      gpu_index = none;
      job_id = none;
    };
    detector_name = "cross_node";
    window_minutes = 1;
    raw_score = of_int (pos (length affected));
  }

  -- The loop over the affected nodes.
  unfoldable pub report_correlated :
      World F → ℕ → List String → ℕ → List String → List (Anomaly F) × World F
  unfolding correlated_failure emit
  report_correlated w now_ms affected alert_count [] = ([], w)
  report_correlated w now_ms affected alert_count (node_id ∷ rest) =
      let finding = correlated_failure (uuid w.issued) now_ms affected alert_count node_id in
      let (later, w') = report_correlated (emit w finding) now_ms affected alert_count rest in
      (finding ∷ later, w')

  unfoldable pub detect_correlated_failures : World F → ℕ → List (Anomaly F) × World F
  unfolding recent_in_window nodes_with_alerts report_correlated
  detect_correlated_failures w now_ms =
      let recent = recent_in_window w now_ms in
      let affected = nodes_with_alerts [] recent in
      if ltb (length affected) 2
      then ([], w)
      else report_correlated w now_ms affected (length recent) affected

  unfoldable pub run_cross_node_detection : World F → (String → ℕ) → ℕ → List (Anomaly F) × World F
  unfolding detect_stragglers detect_correlated_failures
  run_cross_node_detection w straggler_ms now_ms =
      let (stragglers, w') = detect_stragglers w straggler_ms in
      let (correlated, w'') = detect_correlated_failures w' now_ms in
      (stragglers ++ correlated, w'')
