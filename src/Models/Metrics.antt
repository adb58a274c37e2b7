-- ===== src/Models/Metrics.antt =====
-- backend/app/models/metrics.py, over a type `F` of floating point numbers.
use solprobe.Prelude.{ℕ, String, Bool, Option, none, some, List, ◌==◌, if◌then◌else◌, string_eq}
use solprobe.Prelude.Int.{pos}
use solprobe.Prelude.Floats.{Floats}

pub record GpuMetrics (F : Type 0) : Type 0 where
  pub node_id : String
  pub gpu_index : ℕ
  pub gpu_model : String
  pub timestamp_ms : ℕ
  pub gpu_temp_c : F
  pub memory_temp_c : F
  pub gpu_utilization_pct : F
  pub mem_copy_utilization_pct : F
  pub fb_used_mb : F
  pub fb_free_mb : F
  pub power_usage_w : F
  pub xid_errors : ℕ
  pub ecc_sbe_count : ℕ
  pub ecc_dbe_count : ℕ
  pub clock_throttle_reasons : ℕ
  pub pcie_replay_counter : ℕ
  pub pcie_tx_bytes_per_sec : F
  pub pcie_rx_bytes_per_sec : F
  pub sm_active_pct : F
  pub tensor_active_pct : F
  pub retired_pages_sbe : ℕ
  pub retired_pages_dbe : ℕ
  pub remapped_rows_correctable : ℕ
  pub remapped_rows_uncorrectable : ℕ
  pub row_remap_failure : Bool

pub record TrainingMetrics (F : Type 0) : Type 0 where
  pub node_id : String
  pub job_id : String
  pub timestamp_ms : ℕ
  pub step : ℕ
  pub loss : F
  pub gradient_norm : F
  pub learning_rate : F
  pub throughput_tps : F
  pub mfu_pct : F

pub record DilocoMetrics (F : Type 0) : Type 0 where
  pub node_id : String
  pub job_id : String
  pub timestamp_ms : ℕ
  pub inner_step : ℕ
  pub outer_step : ℕ
  pub inner_loss : F
  pub outer_loss : F
  pub pseudo_grad_norm : F
  pub sync_duration_ms : F
  pub worker_speed_ratio : F
  pub is_straggler : Bool

pub record MetricsBatch (F : Type 0) : Type 0 where
  pub gpu : List (GpuMetrics F)
  pub training : Option (TrainingMetrics F)
  pub diloco : Option (DilocoMetrics F)

pub record NodeStatus (F : Type 0) : Type 0 where
  pub node_id : String
  pub gpu_model : String
  pub gpu_count : ℕ
  pub last_seen_ms : ℕ
  pub latest_metrics : List (GpuMetrics F)
  pub latest_training : Option (TrainingMetrics F)
  pub latest_diloco : Option (DilocoMetrics F)

pub record CustomMetric (F : Type 0) : Type 0 where
  pub node_id : String
  pub job_id : String
  pub timestamp_ms : ℕ
  pub step : Option ℕ
  pub name : String
  pub value : F
  pub unit : Option String
  pub tags : List (String × String)

-- `getattr(m, field)` at the numeric fields, which are those that a policy may name
-- (`_SOURCE_FIELDS` of models/policies.py); `none` is any other attribute.
module _ (fl : Floats) where
  open fl use {F, of_int}

  abbrev int_field : ℕ → Option F
  int_field n = some (of_int (pos n))

  unfoldable pub gpu_field : GpuMetrics F → String → Option F
  gpu_field g field =
      if field == "gpu_index"
      then int_field g.gpu_index
      else if field == "timestamp_ms"
      then int_field g.timestamp_ms
      else if field == "gpu_temp_c"
      then some g.gpu_temp_c
      else if field == "memory_temp_c"
      then some g.memory_temp_c
      else if field == "gpu_utilization_pct"
      then some g.gpu_utilization_pct
      else if field == "mem_copy_utilization_pct"
      then some g.mem_copy_utilization_pct
      else if field == "fb_used_mb"
      then some g.fb_used_mb
      else if field == "fb_free_mb"
      then some g.fb_free_mb
      else if field == "power_usage_w"
      then some g.power_usage_w
      else if field == "xid_errors"
      then int_field g.xid_errors
      else if field == "ecc_sbe_count"
      then int_field g.ecc_sbe_count
      else if field == "ecc_dbe_count"
      then int_field g.ecc_dbe_count
      else if field == "clock_throttle_reasons"
      then int_field g.clock_throttle_reasons
      else if field == "pcie_replay_counter"
      then int_field g.pcie_replay_counter
      else if field == "pcie_tx_bytes_per_sec"
      then some g.pcie_tx_bytes_per_sec
      else if field == "pcie_rx_bytes_per_sec"
      then some g.pcie_rx_bytes_per_sec
      else if field == "sm_active_pct"
      then some g.sm_active_pct
      else if field == "tensor_active_pct"
      then some g.tensor_active_pct
      else if field == "retired_pages_sbe"
      then int_field g.retired_pages_sbe
      else if field == "retired_pages_dbe"
      then int_field g.retired_pages_dbe
      else if field == "remapped_rows_correctable"
      then int_field g.remapped_rows_correctable
      else if field == "remapped_rows_uncorrectable"
      then int_field g.remapped_rows_uncorrectable
      else none

  unfoldable pub training_field : TrainingMetrics F → String → Option F
  training_field m field =
      if field == "timestamp_ms"
      then int_field m.timestamp_ms
      else if field == "step"
      then int_field m.step
      else if field == "loss"
      then some m.loss
      else if field == "gradient_norm"
      then some m.gradient_norm
      else if field == "learning_rate"
      then some m.learning_rate
      else if field == "throughput_tps"
      then some m.throughput_tps
      else if field == "mfu_pct"
      then some m.mfu_pct
      else none

  unfoldable pub diloco_field : DilocoMetrics F → String → Option F
  diloco_field m field =
      if field == "timestamp_ms"
      then int_field m.timestamp_ms
      else if field == "inner_step"
      then int_field m.inner_step
      else if field == "outer_step"
      then int_field m.outer_step
      else if field == "inner_loss"
      then some m.inner_loss
      else if field == "outer_loss"
      then some m.outer_loss
      else if field == "pseudo_grad_norm"
      then some m.pseudo_grad_norm
      else if field == "sync_duration_ms"
      then some m.sync_duration_ms
      else if field == "worker_speed_ratio"
      then some m.worker_speed_ratio
      else none
