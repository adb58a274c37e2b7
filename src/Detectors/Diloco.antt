-- ===== src/Detectors/Diloco.antt =====
-- backend/app/detectors/diloco.py. Each alert takes its time stamp from `stamp`, by the node it is
-- about.
pub mod Steps
use solprobe.Prelude.{
  ℕ, ◌+◌, String, ◌<>◌, Bool, true, false, not, ◌&&◌, Option, none, some, List, [], ◌∷◌, ◌++◌, map,
  if◌then◌else◌, ltb, leb, ◌==◌, string_eq, nat_eq, length, filter_by, take, ◌-◌, head?, last?,
}
use solprobe.Prelude.Int.{pos}
use solprobe.Prelude.Floats.{Floats}
use solprobe.Prelude.Ring.{slice_last}
use solprobe.Prelude.Dict.{Dict, get, put, keys, values}
use solprobe.Models.Metrics.{DilocoMetrics}
use solprobe.Models.Alerts.{Alert, Anomaly}
use solprobe.Stores.Metrics.{MetricsStore, get_node_ids, get_diloco_history}
use solprobe.Stores.World.{World, Env, emit}
use solprobe.Detectors.Zscore.{Stats}

abbrev pub divergence_outer_steps : ℕ
divergence_outer_steps = 3

-- sorted(steps)
unfoldable pub insert_step : ℕ → List ℕ → List ℕ
insert_step s [] = s ∷ []
insert_step s (t ∷ rest) = if leb s t then s ∷ t ∷ rest else t ∷ insert_step s rest

unfoldable pub sorted_steps : List ℕ → List ℕ
unfolding insert_step
sorted_steps [] = []
sorted_steps (s ∷ rest) = insert_step s (sorted_steps rest)

module _ {F : Type 0} where
  -- (inner_loss, outer_loss) of the latest entry of each outer step
  unfoldable pub losses_by_step : Dict ℕ (F × F) → List (DilocoMetrics F) → Dict ℕ (F × F)
  unfolding put
  losses_by_step by_step [] = by_step
  losses_by_step by_step (m ∷ rest) =
      losses_by_step (put m.outer_step (m.inner_loss, m.outer_loss) by_step) rest

  -- by_step[s] for each of the steps, which are keys
  unfoldable pub losses_at : Dict ℕ (F × F) → List ℕ → List (F × F)
  unfolding get
  losses_at by_step [] = []
  losses_at by_step (s ∷ rest) = elim (get s by_step) [
    | none ↦ losses_at by_step rest
    | some losses ↦ losses ∷ losses_at by_step rest
  ]

module _ (env : Env) (stats : Stats env.floats.F) where
  open env use {floats, uuid, show}
  open floats use {F, lt, le, sub, div, abs, of_int, format, literal}
  open stats use {mean, std}

  abbrev one : F
  one = literal (pos 10) 1

  -- min(1.0, x)
  abbrev at_most_one : F → F
  at_most_one x = if lt x one then x else one

  -- Between how many neighbours the inner loss falls and the outer loss rises.
  unfoldable pub divergent_count : List (F × F) → ℕ
  divergent_count [] = 0
  divergent_count (x ∷ []) = 0
  divergent_count (x ∷ y ∷ rest) =
      let later = divergent_count (y ∷ rest) in
      if lt y.0 x.0 && lt x.1 y.1 then later + 1 else later

  unfoldable pub divergence : String → ℕ → String → ℕ → F × F → F × F → Anomaly F
  divergence id now_ms node_id count first last = record {
    alert = record {
      alert_id = id;
      node_id = node_id;
      timestamp_ms = now_ms;
      severity = "CRITICAL";
      source = "CENTRAL";
      alert_type = "inner_outer_divergence";
      description =
          "Inner loss decreasing ("
          <> format ".4f" first.0
          <> " -> "
          <> format ".4f" last.0
          <> ") while outer loss increasing ("
          <> format ".4f" first.1
          <> " -> "
          <> format ".4f" last.1
          <> ") over "
          <> show count
          <> " outer steps";
      confidence = at_most_one (div (of_int (pos count)) (literal (pos 50) 1));
      evidence =
          ("detector", "diloco")
          ∷ ("inner_loss_start", format ".6f" first.0)
          ∷ ("inner_loss_end", format ".6f" last.0)
          ∷ ("outer_loss_start", format ".6f" first.1)
          ∷ ("outer_loss_end", format ".6f" last.1)
          ∷ ("divergent_steps", show count)
          ∷ [];
      gpu_index = none;
      job_id = none;
    };
    detector_name = "diloco";
    window_minutes = 30;
    raw_score = of_int (pos count);
  }

  -- the losses of the last four outer steps, in their order
  unfoldable pub recent_losses : List (DilocoMetrics F) → List (F × F)
  unfolding losses_by_step losses_at sorted_steps slice_last
  recent_losses history =
      let by_step = losses_by_step [] history in
      losses_at by_step (slice_last (divergence_outer_steps + 1) (sorted_steps (keys by_step)))

  abbrev pub Finding : Type 0
  Finding = Option (Anomaly F) × World F

  -- Both stores take the finding, if there is one.
  unfoldable pub emit_found : World F → Option (Anomaly F) → Finding
  unfolding emit
  emit_found w none = (none, w)
  emit_found w (some finding) = (some finding, emit w finding)

  unfoldable pub find_divergence : String → ℕ → String → List (DilocoMetrics F) → Option (Anomaly F)
  unfolding recent_losses divergent_count divergence losses_by_step
  find_divergence id now_ms node_id history =
      let recent = recent_losses history in
      let few_steps =
        ltb (length (keys (losses_by_step [] history))) (divergence_outer_steps + 1) in
      let count = divergent_count recent in
      if ltb (length history) (divergence_outer_steps + 1)
      then none
      else if few_steps
      then none
      else if ltb count divergence_outer_steps
      then none
      else elim (head? recent) [
        | none ↦ none
        | some first ↦ elim (last? recent) [
          | none ↦ none
          | some last ↦ some (divergence id now_ms node_id count first last)
        ]
      ]

  unfoldable pub detect_inner_outer_divergence : World F → ℕ → String → Finding
  unfolding find_divergence emit_found get_diloco_history
  detect_inner_outer_divergence w now_ms node_id =
      emit_found w
        (find_divergence (uuid w.issued) now_ms node_id (get_diloco_history w.metrics node_id 30))

  unfoldable pub sync_spike : String → ℕ → String → F → F → Anomaly F
  sync_spike id now_ms node_id latest hist_mean =
      let ratio = div latest hist_mean in
      record {
        alert = record {
          alert_id = id;
          node_id = node_id;
          timestamp_ms = now_ms;
          severity = "WARNING";
          source = "CENTRAL";
          alert_type = "diloco_sync_drift";
          description =
              "Sync duration spike: "
              <> format ".1f" latest
              <> "ms is "
              <> format ".1f" ratio
              <> "x the historical mean ("
              <> format ".1f" hist_mean
              <> "ms)";
          confidence = at_most_one (div (sub ratio one) (literal (pos 30) 1));
          evidence =
              ("detector", "diloco")
              ∷ ("sync_duration_ms", format ".2f" latest)
              ∷ ("historical_mean_ms", format ".2f" hist_mean)
              ∷ ("spike_ratio", format ".4f" ratio)
              ∷ [];
          gpu_index = none;
          job_id = none;
        };
        detector_name = "diloco";
        window_minutes = 15;
        raw_score = ratio;
      }

  unfoldable pub find_sync_spike : String → ℕ → String → List (DilocoMetrics F) → Option (Anomaly F)
  unfolding sync_spike
  find_sync_spike id now_ms node_id history =
      let durations =
        filter_by (λ x. lt (of_int (pos 0)) x) (map (λ m. m.sync_duration_ms) history) in
      let hist_mean = mean (take (length durations - 1) durations) in
      if ltb (length history) 5
      then none
      else if ltb (length durations) 5
      then none
      else if lt hist_mean (literal (pos 1) 9)
      then none
      else elim (last? durations) [
        | none ↦ none
        | some latest ↦
            if le (div latest hist_mean) (literal (pos 20) 1)
            then none
            else some (sync_spike id now_ms node_id latest hist_mean)
      ]

  unfoldable pub detect_sync_duration_spikes : World F → ℕ → String → Finding
  unfolding find_sync_spike emit_found get_diloco_history
  detect_sync_duration_spikes w now_ms node_id =
      emit_found w
        (find_sync_spike (uuid w.issued) now_ms node_id (get_diloco_history w.metrics node_id 15))

  abbrev found : Option (Anomaly F) → List (Anomaly F)
  found none = []
  found (some a) = a ∷ []

  -- `current_outer` against `_last_outer_step.get(node_id, -1)`
  pub data Progress : Type 0 where
    restarted advanced unchanged : Progress

  unfoldable pub progress : ℕ → Option ℕ → Progress
  progress current none = advanced
  progress current (some prev) =
      if ltb current prev then restarted else if ltb prev current then advanced else unchanged

  abbrev pub Checked : Type 0
  Checked = List (Anomaly F) × World F × Dict String ℕ

  -- Both checks of a node whose outer step has advanced.
  unfoldable pub check_both : World F → ℕ → String → List (Anomaly F) × World F
  unfolding detect_inner_outer_divergence detect_sync_duration_spikes
  check_both w now_ms node_id =
      let (diverging, w') = detect_inner_outer_divergence w now_ms node_id in
      let (spike, w'') = detect_sync_duration_spikes w' now_ms node_id in
      (found diverging ++ found spike, w'')

  -- The body of the loop over the nodes.
  unfoldable pub check_node : World F → Dict String ℕ → ℕ → String → Checked
  unfolding progress check_both get put get_diloco_history
  check_node w last_outer_step now_ms node_id =
      elim (last? (get_diloco_history w.metrics node_id 1)) [
        | none ↦ ([], w, last_outer_step)
        | some m ↦ elim (progress m.outer_step (get node_id last_outer_step)) [
          | unchanged ↦ ([], w, last_outer_step)
          | restarted ↦ ([], w, put node_id m.outer_step last_outer_step)
          | advanced ↦
              let (findings, w') = check_both w now_ms node_id in
              (findings, w', put node_id m.outer_step last_outer_step)
        ]
      ]

  unfoldable pub check_nodes : World F → Dict String ℕ → (String → ℕ) → List String → Checked
  unfolding check_node
  check_nodes w last_outer_step stamp [] = ([], w, last_outer_step)
  check_nodes w last_outer_step stamp (node_id ∷ rest) =
      let (findings, w', noted) = check_node w last_outer_step (stamp node_id) node_id in
      let (later, w'', after) = check_nodes w' noted stamp rest in (findings ++ later, w'', after)

  abbrev mean_of_last : List F → Option F
  mean_of_last [] = none
  mean_of_last (x ∷ xs) = some (mean (slice_last 30 (x ∷ xs)))

  -- The norm of each node that has one above zero.
  unfoldable pub node_norms : World F → List String → Dict String F
  unfolding slice_last get_diloco_history
  node_norms w [] = []
  node_norms w (node_id ∷ rest) =
      let later = node_norms w rest in
      let norms =
        filter_by (λ x. lt (of_int (pos 0)) x)
          (map (λ m. m.pseudo_grad_norm) (get_diloco_history w.metrics node_id 15)) in
      elim (mean_of_last norms) [ none ↦ later | some x ↦ (node_id, x) ∷ later ]

  unfoldable pub norm_outlier : String → ℕ → String → F → F → F → Anomaly F
  norm_outlier id now_ms node_id norm cluster_mean cluster_std =
      let z = div (sub norm cluster_mean) cluster_std in
      record {
        alert = record {
          alert_id = id;
          node_id = node_id;
          timestamp_ms = now_ms;
          severity = "WARNING";
          source = "CENTRAL";
          alert_type = "pseudo_grad_divergence";
          description =
              "Pseudo-gradient norm ("
              <> format ".4f" norm
              <> ") deviates from cluster (mean="
              <> format ".4f" cluster_mean
              <> ", std="
              <> format ".4f" cluster_std
              <> ", z="
              <> format ".2f" z
              <> ")";
          confidence = at_most_one (div (abs z) (literal (pos 50) 1));
          evidence =
              ("detector", "diloco")
              ∷ ("pseudo_grad_norm", format ".6f" norm)
              ∷ ("cluster_mean", format ".6f" cluster_mean)
              ∷ ("cluster_std", format ".6f" cluster_std)
              ∷ ("z_score", format ".4f" z)
              ∷ [];
          gpu_index = none;
          job_id = none;
        };
        detector_name = "diloco";
        window_minutes = 15;
        raw_score = z;
      }

  unfoldable pub report_outliers :
      World F → (String → ℕ) → F → F → Dict String F → List (Anomaly F) × World F
  unfolding norm_outlier emit
  report_outliers w stamp cluster_mean cluster_std [] = ([], w)
  report_outliers w stamp cluster_mean cluster_std ((node_id, norm) ∷ rest) =
      let finding =
        norm_outlier (uuid w.issued) (stamp node_id) node_id norm cluster_mean cluster_std in
      let skipped = report_outliers w stamp cluster_mean cluster_std rest in
      let (later, w') = report_outliers (emit w finding) stamp cluster_mean cluster_std rest in
      if lt (literal (pos 30) 1) (abs (div (sub norm cluster_mean) cluster_std))
      then (finding ∷ later, w')
      else skipped

  unfoldable pub detect_pseudo_grad_divergence : World F → (String → ℕ) → List (Anomaly F) × World F
  unfolding node_norms report_outliers get_node_ids
  detect_pseudo_grad_divergence w stamp =
      let norms = node_norms w (get_node_ids w.metrics) in
      let cluster_std = std (values norms) in
      if ltb (length (get_node_ids w.metrics)) 2
      then ([], w)
      else if ltb (length norms) 2
      then ([], w)
      else if lt cluster_std (literal (pos 1) 9)
      then ([], w)
      else report_outliers w stamp (mean (values norms)) cluster_std norms

  unfoldable pub run_diloco_detection : World F → Dict String ℕ → (String → ℕ) → Checked
  unfolding check_nodes detect_pseudo_grad_divergence get_node_ids
  run_diloco_detection w last_outer_step stamp =
      let (findings, w', noted) = check_nodes w last_outer_step stamp (get_node_ids w.metrics) in
      let (outliers, w'') = detect_pseudo_grad_divergence w' stamp in
      (findings ++ outliers, w'', noted)
