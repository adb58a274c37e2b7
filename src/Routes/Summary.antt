-- ===== src/Routes/Summary.antt =====
-- `get_job_summary` of backend/app/api/routes.py.
pub mod Joined
use solprobe.Prelude.{
  ℕ, suc, ◌-◌, max, String, Bool, true, false, Option, none, some, List, [], ◌∷◌, if◌then◌else◌,
  ltb, ◌==◌, string_eq, option_eq, contains, filter_by,
}
use solprobe.Models.Metrics.{GpuMetrics, TrainingMetrics, NodeStatus}
use solprobe.Models.Alerts.{Alert}
use solprobe.Models.Diagnoses.{DiagnosisResult}
use solprobe.Stores.Jobs.{Job, get_job}
use solprobe.Stores.Metrics.{MetricsStore, get_node_status}
use solprobe.Stores.Alerts.{query}
use solprobe.Stores.World.{World}
use solprobe.Diagnosis.Store.{DiagnosisStore, get_by_alert_id}
use solprobe.Routes.{Http, replied, rejected}

abbrev pub Latest : Type 0 → Type 0
Latest F = Option (TrainingMetrics F) × Option (GpuMetrics F)

-- max(0, end - created)
unfoldable pub run_duration : Job → ℕ → ℕ
run_duration j now =
    if contains ("completed" ∷ "failed" ∷ []) j.status
    then j.updated_at_ms - j.created_at_ms
    else now - j.created_at_ms

pub record Summary (F : Type 0) : Type 0 where
  pub job : Job
  pub latest_training : Option (TrainingMetrics F)
  pub latest_hardware : Option (GpuMetrics F)
  pub alerts : List (Alert F)
  pub diagnoses : List (DiagnosisResult F)
  pub run_duration_ms : ℕ

module _ {F : Type 0} where
  -- `sample.timestamp_ms > latest_ts`, where `latest_ts` is -1 as long as there is none
  abbrev pub training_after : TrainingMetrics F → Option (TrainingMetrics F) → Bool
  training_after t none = true
  training_after t (some old) = ltb old.timestamp_ms t.timestamp_ms

  abbrev pub gpu_after : GpuMetrics F → Option (GpuMetrics F) → Bool
  gpu_after g none = true
  gpu_after g (some old) = ltb old.timestamp_ms g.timestamp_ms

  unfoldable pub newer_training :
      Option (TrainingMetrics F) → Option (TrainingMetrics F) → Option (TrainingMetrics F)
  newer_training latest none = latest
  newer_training latest (some t) = if training_after t latest then some t else latest

  -- max(gpus, key=timestamp_ms): the first of the newest
  unfoldable pub newest_gpu : GpuMetrics F → List (GpuMetrics F) → GpuMetrics F
  newest_gpu best [] = best
  newest_gpu best (g ∷ gs) =
      if ltb best.timestamp_ms g.timestamp_ms then newest_gpu g gs else newest_gpu best gs

  unfoldable pub newer_hardware :
      Option (GpuMetrics F) → List (GpuMetrics F) → Option (GpuMetrics F)
  unfolding newest_gpu
  newer_hardware latest [] = latest
  newer_hardware latest (g ∷ gs) =
      if gpu_after (newest_gpu g gs) latest then some (newest_gpu g gs) else latest

  -- The body of the loop over the nodes of the job.
  unfoldable pub look_at : MetricsStore F → Latest F → String → Latest F
  unfolding get_node_status newer_training newer_hardware
  look_at metrics latest node_id = elim (get_node_status metrics node_id) [
    | none ↦ latest
    | some status ↦ (
      newer_training latest.0 status.latest_training,
      newer_hardware latest.1 status.latest_metrics,
    )
  ]

  unfoldable pub latest_of : MetricsStore F → Latest F → List String → Latest F
  unfolding look_at
  latest_of metrics latest [] = latest
  latest_of metrics latest (node_id ∷ rest) =
      latest_of metrics (look_at metrics latest node_id) rest

  unfoldable pub job_alerts : World F → String → List (Alert F)
  unfolding query
  job_alerts w job_id =
      filter_by (λ a. a.job_id == some job_id) (query w.alert_log none none none 1000)

  -- The loop over the alerts, with the identifiers seen so far.
  unfoldable pub joined : DiagnosisStore F → List String → List (Alert F) → List (DiagnosisResult F)
  unfolding get_by_alert_id
  joined store seen [] = []
  joined store seen (a ∷ rest) = elim (get_by_alert_id store a.alert_id) [
    | none ↦ joined store seen rest
    | some d ↦
        let skip = joined store seen rest in
        let keep = d ∷ joined store (d.diagnosis_id ∷ seen) rest in
        if contains seen d.diagnosis_id then skip else keep
  ]

  -- `now` is the clock.
  unfoldable pub get_job_summary : World F → DiagnosisStore F → String → ℕ → Http (Summary F)
  unfolding get_job latest_of job_alerts joined run_duration
  get_job_summary w diagnoses job_id now = elim (get_job w.job_registry job_id) [
    | none ↦ rejected 404
    | some j ↦
        let latest = latest_of w.metrics (none, none) j.node_ids in
        replied 200 (record {
          job = j;
          latest_training = latest.0;
          latest_hardware = latest.1;
          alerts = job_alerts w job_id;
          diagnoses = joined diagnoses [] (job_alerts w job_id);
          run_duration_ms = run_duration j now;
        })
  ]
