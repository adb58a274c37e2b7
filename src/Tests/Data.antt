-- ===== src/Tests/Data.antt =====
-- Sample values: numbers, batches, jobs, alerts and policies.
use solprobe.Prelude.{
  ℕ, ◌+◌, ◌-◌, ◌*◌, ◌/◌, String, true, false, none, some, List, [], ◌∷◌, ltb, leb, nat_beq,
}
use solprobe.Prelude.Int.{pos, pos_part}
use solprobe.Prelude.Floats.{Floats}
use solprobe.Models.Metrics.{GpuMetrics, TrainingMetrics, MetricsBatch, CustomMetric}
use solprobe.Models.Alerts.{Alert}
use solprobe.Models.Policies.{PolicyCreate, PolicyUpdate, gpu, training, gt, warning}
use solprobe.Stores.Jobs.{JobStore}
use solprobe.Stores.Policies.{PolicyStore, policy_of}
use solprobe.Stores.Metrics.Ingest.{ingest_all, empty_store}
use solprobe.Stores.Alerts.Queries.{empty_alerts}
use solprobe.Stores.Custom.Queries.{empty_custom}
use solprobe.Stores.World.{World, Env}

-- natural numbers in place of floating point numbers
abbrev pub floats : Floats
floats = record {
  F = ℕ;
  lt = ltb;
  le = leb;
  eq = nat_beq;
  add = λ a b. a + b;
  sub = λ a b. a - b;
  mul = λ a b. a * b;
  div = λ a b. a / b;
  abs = λ a. a;
  of_int = pos_part;
  to_int = λ a. some (pos a);
  is_finite = λ a. true;
  format = λ spec a. "0";
  repr = λ a. "0";
  literal = λ i places. pos_part i;
}

abbrev pub env : Env
env = record { floats = floats; uuid = λ n. "id"; show = λ n. "0" }

abbrev pub gpu_sample : ℕ → GpuMetrics ℕ
gpu_sample t = record {
  node_id = "n1";
  gpu_index = 0;
  gpu_model = "H100";
  timestamp_ms = t;
  gpu_temp_c = 91;
  memory_temp_c = 80;
  gpu_utilization_pct = 99;
  mem_copy_utilization_pct = 10;
  fb_used_mb = 100;
  fb_free_mb = 100;
  power_usage_w = 300;
  xid_errors = 0;
  ecc_sbe_count = 0;
  ecc_dbe_count = 0;
  clock_throttle_reasons = 0;
  pcie_replay_counter = 0;
  pcie_tx_bytes_per_sec = 1;
  pcie_rx_bytes_per_sec = 1;
  sm_active_pct = 90;
  tensor_active_pct = 90;
  retired_pages_sbe = 0;
  retired_pages_dbe = 0;
  remapped_rows_correctable = 0;
  remapped_rows_uncorrectable = 0;
  row_remap_failure = false;
}

abbrev pub training_sample : ℕ → ℕ → TrainingMetrics ℕ
training_sample t loss = record {
  node_id = "n1";
  job_id = "j1";
  timestamp_ms = t;
  step = 7;
  loss = loss;
  gradient_norm = 1;
  learning_rate = 1;
  throughput_tps = 1000;
  mfu_pct = 40;
}

abbrev pub batch : ℕ → ℕ → MetricsBatch ℕ
batch t loss = record {
  gpu = gpu_sample t ∷ [];
  training = some (training_sample t loss);
  diloco = none;
}

abbrev pub batches : List (MetricsBatch ℕ × ℕ × ℕ)
batches = (batch 1000 5, 1000, 1000) ∷ (batch 3000 6, 3000, 3000) ∷ []

abbrev pub no_jobs : JobStore
no_jobs = record { jobs = []; max_size = 1000 }

abbrev pub custom_sample : ℕ → ℕ → CustomMetric ℕ
custom_sample t v = record {
  node_id = "n1";
  job_id = "j1";
  timestamp_ms = t;
  step = none;
  name = "entropy";
  value = v;
  unit = none;
  tags = [];
}

abbrev pub alert : String → ℕ → Alert ℕ
alert id t = record {
  alert_id = id;
  node_id = "n1";
  timestamp_ms = t;
  severity = "WARNING";
  source = "EDGE";
  alert_type = "thermal";
  description = "hot";
  confidence = 1;
  evidence = [];
  gpu_index = none;
  job_id = none;
}

-- loss above 4 for 2 seconds on any node
abbrev pub loss_policy : PolicyCreate ℕ
loss_policy = record {
  policy_id = "p1";
  name = "high loss";
  enabled = true;
  scope = record { job_id = none; node_id = none };
  metric = record { source = training; field = "loss" };
  condition = record { operator = gt; threshold = 4; for_seconds = 2 };
  severity = warning;
  cooldown_seconds = 60;
  description = "";
}

-- the same on the temperature of the GPUs, for one job
abbrev pub gpu_policy : PolicyCreate ℕ
gpu_policy = record loss_policy {
  scope = record { job_id = some "j1"; node_id = none };
  metric = record { source = gpu; field = "gpu_temp_c" };
}

abbrev pub rename : PolicyUpdate ℕ
rename = record {
  name = some "loss";
  enabled = none;
  scope = none;
  metric = none;
  condition = none;
  severity = none;
  cooldown_seconds = none;
  description = none;
}

abbrev pub one_policy : PolicyStore ℕ
one_policy = record { policies = ("p1", policy_of loss_policy 1) ∷ []; cooldowns = [] }

-- Two batches have come in from one node.
abbrev pub world : World ℕ
world = record {
  metrics = (ingest_all empty_store no_jobs batches).0;
  alert_log = empty_alerts 1000;
  anomaly_log = record { anomalies = []; max_size = 1000 };
  job_registry = no_jobs;
  lifecycle = record { entries = [] };
  custom = empty_custom 1800;
  policy_book = one_policy;
  issued = 0;
}
