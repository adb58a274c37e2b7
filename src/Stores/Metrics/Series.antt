-- ===== src/Stores/Metrics/Series.antt =====
-- The scalar series that the detectors read, over the numbers `fl` of Python.
use solprobe.Prelude.{ℕ, String, Option, none, some, List, [], ◌∷◌, map, foldl, length}
use solprobe.Prelude.Int.{pos}
use solprobe.Prelude.Floats.{Floats}
use solprobe.Models.Metrics.{GpuMetrics, gpu_field, training_field}
use solprobe.Stores.Metrics.{MetricsStore, get_gpu_history, get_training_history}

module _ (fl : Floats) where
  open fl use {F, add, div, of_int}

  -- getattr(m, field, 0.0)
  abbrev or_zero : Option F → F
  or_zero none = of_int (pos 0)
  or_zero (some x) = x

  -- sum(xs)
  unfoldable pub sum_floats : List F → F
  sum_floats xs = foldl add (of_int (pos 0)) xs

  unfoldable pub gpu_averages : String → List (List (GpuMetrics F)) → List F
  unfolding sum_floats gpu_field
  gpu_averages field [] = []
  gpu_averages field ([] ∷ rest) = gpu_averages field rest
  gpu_averages field ((g ∷ gs) ∷ rest) =
      div (sum_floats (map (λ m. or_zero (gpu_field fl m field)) (g ∷ gs)))
        (of_int (pos (length (g ∷ gs))))
      ∷ gpu_averages field rest

  unfoldable pub get_gpu_metric_series : MetricsStore F → String → String → ℕ → List F
  unfolding gpu_averages get_gpu_history
  get_gpu_metric_series s node_id field window_minutes =
      gpu_averages field (get_gpu_history s node_id window_minutes 1)

  unfoldable pub get_training_metric_series : MetricsStore F → String → String → ℕ → List F
  unfolding get_training_history training_field
  get_training_metric_series s node_id field window_minutes =
      map (λ m. or_zero (training_field fl m field)) (get_training_history s node_id window_minutes)
