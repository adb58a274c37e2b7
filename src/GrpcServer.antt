-- ===== src/GrpcServer.antt =====
-- backend/app/grpc_server.py: the messages of the sidecars. The metric messages have the fields of
-- the models that they are converted to.
pub mod Reported
use solprobe.Prelude.{
  ℕ, ◌+◌, String, ◌<>◌, Bool, true, false, ◌&&◌, Option, none, some, List, [], ◌∷◌, map,
  if◌then◌else◌, ◌==◌, string_eq, nat_eq,
}
use solprobe.Prelude.Int.{pos}
use solprobe.Prelude.Floats.{Floats}
use solprobe.Prelude.Dict.{Dict, get}
use solprobe.Models.Metrics.{GpuMetrics, TrainingMetrics, DilocoMetrics, MetricsBatch}
use solprobe.Models.Alerts.{Alert}
use solprobe.Stores.Metrics.{ingest_batch}
use solprobe.Stores.Alerts.{add_alert}
use solprobe.Stores.World.{World}

-- _SEVERITY_MAP, _SOURCE_MAP and _ALERT_TYPE_MAP
abbrev pub severity_map : Dict ℕ String
severity_map = (0, "UNSPECIFIED") ∷ (1, "INFO") ∷ (2, "WARNING") ∷ (3, "CRITICAL") ∷ []

abbrev pub source_map : Dict ℕ String
source_map = (0, "UNSPECIFIED") ∷ (1, "EDGE") ∷ (2, "CENTRAL") ∷ []

abbrev pub alert_type_map : Dict ℕ String
alert_type_map =
    (0, "unspecified")
    ∷ (1, "thermal_throttle")
    ∷ (2, "memory_pressure")
    ∷ (3, "xid_error")
    ∷ (4, "ecc_error")
    ∷ (5, "clock_throttle")
    ∷ (6, "pcie_error")
    ∷ (10, "nccl_timeout")
    ∷ (11, "gradient_explosion")
    ∷ (12, "loss_plateau")
    ∷ (13, "loss_spike")
    ∷ (20, "diloco_sync_drift")
    ∷ (21, "straggler_detected")
    ∷ (22, "pseudo_grad_divergence")
    ∷ (23, "inner_outer_divergence")
    ∷ []

-- map.get(key, default)
unfoldable pub lookup_or : String → Dict ℕ String → ℕ → String
unfolding get
lookup_or default names key = elim (get key names) [ none ↦ default | some name ↦ name ]

-- The message Alert; an optional field that is not set is `none`.
pub record AlertMessage (F : Type 0) : Type 0 where
  pub alert_id : String
  pub node_id : String
  pub timestamp_ms : ℕ
  pub severity : ℕ
  pub source : ℕ
  pub alert_type : ℕ
  pub description : String
  pub confidence : F
  pub evidence : Dict String String
  pub gpu_index : Option ℕ
  pub job_id : Option String

-- `HasField`, then the conversion
abbrev pub converted : {A : Type 0} → (A → A) → Option A → Option A
converted f none = none
converted f (some x) = some (f x)

module _ {F : Type 0} where
  unfoldable pub proto_gpu_to_model : GpuMetrics F → GpuMetrics F
  proto_gpu_to_model g = record {
    node_id = g.node_id;
    gpu_index = g.gpu_index;
    gpu_model = g.gpu_model;
    timestamp_ms = g.timestamp_ms;
    gpu_temp_c = g.gpu_temp_c;
    memory_temp_c = g.memory_temp_c;
    gpu_utilization_pct = g.gpu_utilization_pct;
    mem_copy_utilization_pct = g.mem_copy_utilization_pct;
    fb_used_mb = g.fb_used_mb;
    fb_free_mb = g.fb_free_mb;
    power_usage_w = g.power_usage_w;
    xid_errors = g.xid_errors;
    ecc_sbe_count = g.ecc_sbe_count;
    ecc_dbe_count = g.ecc_dbe_count;
    clock_throttle_reasons = g.clock_throttle_reasons;
    pcie_replay_counter = g.pcie_replay_counter;
    pcie_tx_bytes_per_sec = g.pcie_tx_bytes_per_sec;
    pcie_rx_bytes_per_sec = g.pcie_rx_bytes_per_sec;
    sm_active_pct = g.sm_active_pct;
    tensor_active_pct = g.tensor_active_pct;
    retired_pages_sbe = g.retired_pages_sbe;
    retired_pages_dbe = g.retired_pages_dbe;
    remapped_rows_correctable = g.remapped_rows_correctable;
    remapped_rows_uncorrectable = g.remapped_rows_uncorrectable;
    row_remap_failure = g.row_remap_failure;
  }

  unfoldable pub proto_training_to_model : TrainingMetrics F → TrainingMetrics F
  proto_training_to_model t = record {
    node_id = t.node_id;
    job_id = t.job_id;
    timestamp_ms = t.timestamp_ms;
    step = t.step;
    loss = t.loss;
    gradient_norm = t.gradient_norm;
    learning_rate = t.learning_rate;
    throughput_tps = t.throughput_tps;
    mfu_pct = t.mfu_pct;
  }

  unfoldable pub proto_diloco_to_model : DilocoMetrics F → DilocoMetrics F
  proto_diloco_to_model d = record {
    node_id = d.node_id;
    job_id = d.job_id;
    timestamp_ms = d.timestamp_ms;
    inner_step = d.inner_step;
    outer_step = d.outer_step;
    inner_loss = d.inner_loss;
    outer_loss = d.outer_loss;
    pseudo_grad_norm = d.pseudo_grad_norm;
    sync_duration_ms = d.sync_duration_ms;
    worker_speed_ratio = d.worker_speed_ratio;
    is_straggler = d.is_straggler;
  }

  unfoldable pub proto_batch_to_model : MetricsBatch F → MetricsBatch F
  unfolding proto_gpu_to_model proto_training_to_model proto_diloco_to_model
  proto_batch_to_model b = record {
    gpu = map proto_gpu_to_model b.gpu;
    training = converted proto_training_to_model b.training;
    diloco = converted proto_diloco_to_model b.diloco;
  }

  -- The loop of `StreamMetrics`, with the clock at the two marks of progress of each batch; it counts
  -- the batches.
  unfoldable pub stream_metrics : ℕ → World F → List (MetricsBatch F × ℕ × ℕ) → ℕ × World F
  unfolding proto_batch_to_model ingest_batch
  stream_metrics count w [] = (count, w)
  stream_metrics count w ((b, now_training, now_diloco) ∷ rest) =
      let (metrics, jobs) =
        ingest_batch w.metrics w.job_registry (proto_batch_to_model b) now_training now_diloco in
      stream_metrics (count + 1) (record w { metrics = metrics; job_registry = jobs }) rest

module _ (fl : Floats) where
  open fl use {F, le, literal}

  abbrev or_fresh : String → String → String
  or_fresh id fresh = if id == "" then fresh else id

  abbrev or_now : ℕ → ℕ → ℕ
  or_now timestamp_ms now = if timestamp_ms == 0 then now else timestamp_ms

  unfoldable pub proto_alert_to_model : String → ℕ → AlertMessage F → Alert F
  unfolding lookup_or
  proto_alert_to_model fresh now a = record {
    alert_id = or_fresh a.alert_id fresh;
    node_id = a.node_id;
    timestamp_ms = or_now a.timestamp_ms now;
    severity = lookup_or "UNSPECIFIED" severity_map a.severity;
    source = lookup_or "UNSPECIFIED" source_map a.source;
    alert_type = lookup_or "unspecified" alert_type_map a.alert_type;
    description = a.description;
    confidence = a.confidence;
    evidence = a.evidence;
    gpu_index = a.gpu_index;
    job_id = a.job_id;
  }

  -- The acknowledged identifier, and the alert that is sent on; `none` is the exception of the model
  -- for a confidence that is not between 0 and 1.
  unfoldable pub report_alert :
      World F → String → ℕ → AlertMessage F → Option (String × Alert F) × World F
  unfolding proto_alert_to_model add_alert
  report_alert w fresh now a =
      let model = proto_alert_to_model fresh now a in
      if le (literal (pos 0) 1) a.confidence && le a.confidence (literal (pos 10) 1)
      then (some (model.alert_id, model), record w { alert_log = add_alert w.alert_log model })
      else (none, w)
