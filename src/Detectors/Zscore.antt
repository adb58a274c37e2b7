-- ===== src/Detectors/Zscore.antt =====
-- backend/app/detectors/zscore.py. The statistics of numpy and the readings of the clock are
-- parameters: `clock` in seconds, and `stamp` the milliseconds of an alert.
pub mod Once
use solprobe.Prelude.{
  ℕ, ◌-◌, String, ◌<>◌, Bool, true, false, not, ◌&&◌, Option, none, some, List, [], ◌∷◌, ◌++◌, map,
  if◌then◌else◌, ltb, ◌==◌, string_eq, pair_eq, length, take, last?,
}
use solprobe.Prelude.Int.{pos, negsuc}
use solprobe.Prelude.Floats.{Floats}
use solprobe.Prelude.Dict.{Dict, get, put, keep_items}
use solprobe.Models.Alerts.{Alert, Anomaly}
use solprobe.Stores.Metrics.{get_node_ids}
use solprobe.Stores.Metrics.Series.{get_gpu_metric_series, get_training_metric_series}
use solprobe.Stores.World.{World, Env, emit}

-- np.mean, np.std and np.median
pub record Stats (F : Type 0) : Type 0 where
  pub mean : List F → F
  pub std : List F → F
  pub median : List F → F

abbrev pub gpu_fields : List String
gpu_fields = "gpu_temp_c" ∷ []

abbrev pub training_fields : List String
training_fields = "gradient_norm" ∷ "loss" ∷ "throughput_tps" ∷ []

abbrev pub windows_minutes : List ℕ
windows_minutes = 5 ∷ 15 ∷ 60 ∷ []

abbrev pub zscore_min_samples : ℕ
zscore_min_samples = 30

-- _FIELD_TO_ALERT_TYPE.get(field, "unspecified")
unfoldable pub alert_type_of : String → String
alert_type_of field =
    if field == "gpu_temp_c"
    then "thermal_throttle"
    else if field == "gpu_utilization_pct"
    then "clock_throttle"
    else if field == "gradient_norm"
    then "gradient_explosion"
    else if field == "loss"
    then "loss_spike"
    else if field == "throughput_tps"
    then "straggler_detected"
    else "unspecified"

-- _FIELD_TO_SEVERITY.get(field, "WARNING")
unfoldable pub severity_for : String → String
severity_for field =
    if field == "gradient_norm"
    then "CRITICAL"
    else if field == "loss"
    then "CRITICAL"
    else "WARNING"

-- One turn of the loops: a field of a node over a window, of its GPUs or of its training.
pub record Probe : Type 0 where
  pub node_id : String
  pub window_minutes : ℕ
  pub field : String
  pub on_gpu : Bool

-- (node_id, alert_type)
abbrev pub DedupKey : Type 0
DedupKey = String × String

unfoldable pub dedup_key : Probe → DedupKey
unfolding alert_type_of
dedup_key p = (p.node_id, alert_type_of p.field)

-- The turns of the loops in their order.
abbrev pub window_probes : String → ℕ → List Probe
window_probes node_id window =
    map (λ f. record { node_id = node_id; window_minutes = window; field = f; on_gpu = true })
      gpu_fields
    ++ map (λ f. record { node_id = node_id; window_minutes = window; field = f; on_gpu = false })
        training_fields

unfoldable pub node_probes : String → List ℕ → List Probe
node_probes node_id [] = []
node_probes node_id (window ∷ rest) = window_probes node_id window ++ node_probes node_id rest

unfoldable pub probes : List String → List Probe
unfolding node_probes
probes [] = []
probes (node_id ∷ rest) = node_probes node_id windows_minutes ++ probes rest

module _ (env : Env) (stats : Stats env.floats.F) where
  open env use {floats, uuid, show}
  open floats use {F, lt, sub, mul, div, abs, of_int, format, repr, literal}
  open stats use {mean, std}

  -- `_compute_zscore`
  unfoldable pub compute_zscore : List F → Option F
  compute_zscore values = elim (last? values) [
    | none ↦ none
    | some newest ↦
        let baseline = take (length values - 1) values in
        let z = div (sub newest (mean baseline)) (std baseline) in
        if ltb (length values) zscore_min_samples
        then none
        else if lt (std baseline) (literal (pos 1) 9)
        then none
        else some z
  ]

  -- min(1.0, abs(z) / 5.0)
  abbrev confidence_of : F → F
  confidence_of z =
      let x = div (abs z) (literal (pos 50) 1) in
      if lt x (literal (pos 10) 1) then x else literal (pos 10) 1

  -- `_make_alert`
  unfoldable pub zscore_anomaly : String → ℕ → Probe → F → Anomaly F
  unfolding alert_type_of severity_for
  zscore_anomaly id now_ms p z = record {
    alert = record {
      alert_id = id;
      node_id = p.node_id;
      timestamp_ms = now_ms;
      severity = severity_for p.field;
      source = "CENTRAL";
      alert_type = alert_type_of p.field;
      description =
          "Z-score anomaly on "
          <> p.field
          <> ": z="
          <> format ".2f" z
          <> " (window="
          <> show p.window_minutes
          <> "min, threshold="
          <> repr (literal (pos 30) 1)
          <> ")";
      confidence = confidence_of z;
      evidence =
          ("detector", "zscore")
          ∷ ("field", p.field)
          ∷ ("z_score", format ".4f" z)
          ∷ ("window_minutes", show p.window_minutes)
          ∷ [];
      gpu_index = none;
      job_id = none;
    };
    detector_name = "zscore";
    window_minutes = p.window_minutes;
    raw_score = z;
  }

  unfoldable pub series_of : World F → Probe → List F
  unfolding get_gpu_metric_series get_training_metric_series
  series_of w p =
      if p.on_gpu
      then get_gpu_metric_series floats w.metrics p.node_id p.field p.window_minutes
      else get_training_metric_series floats w.metrics p.node_id p.field p.window_minutes

  -- abs(z) > _ZSCORE_THRESHOLD
  abbrev pub exceeds : Option F → Bool
  exceeds none = false
  exceeds (some z) = lt (literal (pos 30) 1) (abs z)

  -- `dedup_key in _last_alerted and now - _last_alerted[dedup_key] < _DEDUP_COOLDOWN_SECONDS`
  abbrev pub suppressed : Option F → F → Bool
  suppressed none now = false
  suppressed (some last) now = lt (sub now last) (literal (pos 600) 1)

  abbrev pub Outcome : Type 0
  Outcome = Option (Anomaly F) × World F × Dict DedupKey F

  abbrev pub score_or_zero : Option F → F
  score_or_zero none = of_int (pos 0)
  score_or_zero (some z) = z

  -- The body of the inner loops.
  unfoldable pub check : World F → Dict DedupKey F → F → ℕ → Probe → Outcome
  unfolding compute_zscore series_of get put zscore_anomaly dedup_key
  check w last_alerted now now_ms p =
      let z = compute_zscore (series_of w p) in
      let finding = zscore_anomaly (uuid w.issued) now_ms p (score_or_zero z) in
      if exceeds z
      then if suppressed (get (dedup_key p) last_alerted) now
        then (none, w, last_alerted)
        else (some finding, emit w finding, put (dedup_key p) now last_alerted)
      else (none, w, last_alerted)

  abbrev pub found : Option (Anomaly F) → List (Anomaly F) → List (Anomaly F)
  found none later = later
  found (some a) later = a ∷ later

  -- The loops, with the clock at each turn.
  unfoldable pub check_all :
      World F
      → Dict DedupKey F
      → (Probe → F)
      → (Probe → ℕ)
      → List Probe
      → List (Anomaly F) × World F × Dict DedupKey F
  unfolding check
  check_all w last_alerted clock stamp [] = ([], w, last_alerted)
  check_all w last_alerted clock stamp (p ∷ rest) =
      let (outcome, w', noted) = check w last_alerted (clock p) (stamp p) p in
      let (later, w'', after) = check_all w' noted clock stamp rest in
      (found outcome later, w'', after)

  -- `finish` is the clock after the loops.
  unfoldable pub run_zscore_detection :
      World F
      → Dict DedupKey F
      → (Probe → F)
      → (Probe → ℕ)
      → F
      → List (Anomaly F) × World F × Dict DedupKey F
  unfolding check_all probes get_node_ids keep_items
  run_zscore_detection w last_alerted clock stamp finish =
      let (findings, w', noted) =
        check_all w last_alerted clock stamp (probes (get_node_ids w.metrics)) in
      (
        findings,
        w',
        keep_items (λ _ v. not (lt v (sub finish (mul (literal (pos 600) 1) (of_int (pos 2))))))
            noted,
      )
