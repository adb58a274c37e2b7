-- ===== src/Detectors/Policy/Readers.antt =====
-- The source readers: the samples of a field on a node, oldest first.
use solprobe.Prelude.{
  ℕ, ◌*◌, max, String, Option, none, some, List, [], ◌∷◌, map, reverse, length, ◌==◌, string_eq,
  if◌then◌else◌,
}
use solprobe.Prelude.Int.{pos}
use solprobe.Prelude.Floats.{Floats}
use solprobe.Models.Metrics.{
  GpuMetrics, TrainingMetrics, DilocoMetrics, CustomMetric, gpu_field, training_field, diloco_field,
}
use solprobe.Models.Policies.{Source, gpu, training, diloco, custom}
use solprobe.Stores.Metrics.{
  get_gpu_history, get_training_history, get_diloco_history, max_timestamp,
}
use solprobe.Stores.Metrics.Series.{sum_floats}
use solprobe.Stores.Custom.{CustomStore}
use solprobe.Stores.Custom
use solprobe.Stores.World.{World}

-- (timestamp_ms, value, job_id)
pub record Sample (F : Type 0) : Type 0 where
  pub timestamp_ms : ℕ
  pub value : Option F
  pub job_id : Option String

-- `job_id or None`
unfoldable pub job_or_none : String → Option String
job_or_none job_id = if job_id == "" then none else some job_id

module _ (fl : Floats) where
  open fl use {F, div, of_int}

  -- The values of the field on all GPUs of a snapshot; `none` is the `AttributeError`.
  unfoldable pub all_values : String → List (GpuMetrics F) → Option (List F)
  unfolding gpu_field
  all_values field [] = some []
  all_values field (g ∷ gs) = elim (gpu_field fl g field) [
    | none ↦ none
    | some x ↦ elim (all_values field gs) [ none ↦ none | some xs ↦ some (x ∷ xs) ]
  ]

  unfoldable pub average : List (GpuMetrics F) → String → Option F
  unfolding all_values sum_floats
  average gs field = elim (all_values field gs) [
    | none ↦ none
    | some xs ↦ some (div (sum_floats fl xs) (of_int (pos (length gs))))
  ]

  unfoldable pub gpu_samples : String → List (List (GpuMetrics F)) → List (Sample F)
  unfolding average max_timestamp
  gpu_samples field [] = []
  gpu_samples field ([] ∷ rest) = gpu_samples field rest
  gpu_samples field ((g ∷ gs) ∷ rest) =
      record {
        timestamp_ms = max_timestamp (g ∷ gs);
        value = average (g ∷ gs) field;
        job_id = none;
      }
      ∷ gpu_samples field rest

  abbrev training_sample : String → TrainingMetrics F → Sample F
  training_sample field m = record {
    timestamp_ms = m.timestamp_ms;
    value = training_field fl m field;
    job_id = job_or_none m.job_id;
  }

  abbrev diloco_sample : String → DilocoMetrics F → Sample F
  diloco_sample field m = record {
    timestamp_ms = m.timestamp_ms;
    value = diloco_field fl m field;
    job_id = job_or_none m.job_id;
  }

  abbrev custom_sample : CustomMetric F → Sample F
  custom_sample m = record {
    timestamp_ms = m.timestamp_ms;
    value = some m.value;
    job_id = job_or_none m.job_id;
  }

  -- `_SOURCE_READERS[source](node_id, field, window_minutes)`
  unfoldable pub read_source : World F → Source → String → String → ℕ → List (Sample F)
  unfolding gpu_samples get_gpu_history get_training_history get_diloco_history job_or_none
      training_field diloco_field Custom.query
  read_source w gpu node_id field window_minutes =
      gpu_samples field (get_gpu_history w.metrics node_id window_minutes 1)
  read_source w training node_id field window_minutes =
      map (training_sample field) (get_training_history w.metrics node_id window_minutes)
  read_source w diloco node_id field window_minutes =
      map (diloco_sample field) (get_diloco_history w.metrics node_id window_minutes)
  read_source w custom node_id field window_minutes = map custom_sample (
      reverse
        (Custom.query w.custom (some field) none (some node_id) (max 1 (window_minutes * 60))))
