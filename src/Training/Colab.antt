-- ===== src/Training/Colab.antt =====
-- training/colab.py: `SolProbeColabClient`, which posts to the HTTP interface. What nvidia-smi prints
-- and the outcome of a request are parameters; a request that succeeds has a text as its reply. The
-- defaults of the models stand for the fields that a payload leaves out.
pub mod Posted
use solprobe.Prelude.{
  ℕ, String, ◌<>◌, Bool, true, false, Option, none, some, List, [], ◌∷◌, foldl, head?,
  if◌then◌else◌, ◌==◌, nat_eq, string_eq,
}
use solprobe.Prelude.Int.{pos}
use solprobe.Prelude.Floats.{Floats}
use solprobe.Prelude.Dict.{Dict, put, get}
use solprobe.Prelude.Result.{
  Result, ok, err, ◌>>=◌, or_raise, key_error, runtime_error, index_error,
}
use solprobe.Models.Metrics.{GpuMetrics, TrainingMetrics, MetricsBatch, CustomMetric}
use solprobe.Models.Alerts.{JobRegistration}
use solprobe.Training.Struct.{Machine}
use solprobe.Training.Callback.{compute_grad_norm, throughput_of, mfu_of, text_or}

pub record Client : Type 0 where
  pub backend_url : String
  pub api_key : String
  pub node_id : String
  pub job_id : String
  pub gpu_model : String

-- Python's functions on texts: strip(), rstrip("/"), the first line, split(","), float().
pub record Console (F : Type 0) : Type 0 where
  pub strip : String → String
  pub strip_slashes : String → String
  pub first_line : String → String
  pub split_commas : String → List String
  pub to_float : String → Option F

-- The bodies of the requests, each for its endpoint.
pub data Payload (F : Type 0) : Type 0 where
  job : JobRegistration → Payload F
  job_status : String → Payload F
  batch : MetricsBatch F → Payload F
  custom : CustomMetric F → Payload F

pub record HttpRequest (F : Type 0) : Type 0 where
  pub url : String
  pub api_key : String
  pub payload : Payload F
  pub verb : String

-- What `urlopen` does: a reply, an HTTPError, or another failure.
pub data Answer : Type 0 where
  reply : String → Answer
  http_error : ℕ → String → Answer
  unreachable : Answer

-- The readings of nvidia-smi.
pub record GpuReadings (F : Type 0) : Type 0 where
  pub gpu_temp_c : F
  pub gpu_utilization_pct : F
  pub fb_used_mb : F
  pub fb_free_mb : F
  pub power_usage_w : F

-- What a caller overrides of them.
pub record Given (F : Type 0) : Type 0 where
  pub gpu_utilization_pct : Option F
  pub gpu_temp_c : Option F
  pub fb_used_mb : Option F
  pub fb_free_mb : Option F

abbrev value_or : {A : Type 0} → Option A → A → A
value_or none other = other
value_or (some value) other = value

module _ {F : Type 0} (console : Console F) where
  -- The text that the command printed, `none` if it failed.
  unfoldable pub detect_gpu_model : Option String → String
  detect_gpu_model none = "unknown"
  detect_gpu_model (some printed) =
      let out = console.strip printed in
      if out == "" then "unknown" else console.strip (console.first_line out)

  unfoldable pub init_client :
      Option String → String → String → String → String → Option String → Client
  unfolding detect_gpu_model
  init_client printed backend_url api_key node_id job_id gpu_model = record {
    backend_url = console.strip_slashes backend_url;
    api_key = api_key;
    node_id = node_id;
    job_id = job_id;
    gpu_model = text_or gpu_model (detect_gpu_model printed);
  }

  unfoldable pub from_env :
      (String → Option String) → Option String → String → String → Result Client
  unfolding init_client
  from_env environ printed node_id job_id =
      or_raise key_error (environ "SOLPROBE_BACKEND_URL") >>= λ backend_url.
      or_raise key_error (environ "SOLPROBE_API_KEY") >>= λ api_key.
      ok (init_client printed backend_url api_key node_id job_id none)

  abbrev sample_of : GpuReadings F → List (Option F) → GpuReadings F
  sample_of defaults (some temp ∷ some utilization ∷ some used ∷ some free ∷ some power ∷ rest) =
      record {
        gpu_temp_c = temp;
        gpu_utilization_pct = utilization;
        fb_used_mb = used;
        fb_free_mb = free;
        power_usage_w = power;
      }
  sample_of defaults _ = defaults

  abbrev floats_of : List String → List (Option F)
  floats_of [] = []
  floats_of (part ∷ parts) = console.to_float (console.strip part) ∷ floats_of parts

  unfoldable pub sample_nvidia_smi : GpuReadings F → Option String → GpuReadings F
  sample_nvidia_smi defaults none = defaults
  sample_nvidia_smi defaults (some printed) =
      let out = console.strip printed in
      if out == ""
      then defaults
      else sample_of defaults (floats_of (console.split_commas (console.first_line out)))

-- the parsed reply, or an empty one
abbrev answered : {A : Type 0} → (String → Result A) → A → Answer → Result A
answered loads empty (reply raw) = if raw == "" then ok empty else loads raw
answered loads empty (http_error code detail) = err runtime_error
answered loads empty unreachable = err runtime_error

module _ {F A : Type 0} (loads : String → Result A) (empty : A) where
  -- `_request`, over `_post` and `_patch`
  unfoldable pub request :
      (HttpRequest F → Answer) → Client → String → String → Payload F → Result A
  request send c verb path payload = answered loads empty (
      send (record {
        url = c.backend_url <> path;
        api_key = c.api_key;
        payload = payload;
        verb = verb;
      }))

-- {**a, **b}
abbrev merged : Dict String String → Dict String String → Dict String String
merged a [] = a
merged a ((k, v) ∷ b) = merged (put k v a) b

module _ {F : Type 0} where
  unfoldable pub registration : Client → String → Dict String String → Payload F
  registration c name config = job (record {
    job_id = c.job_id;
    name = some name;
    config = merged (("platform", "google-colab") ∷ ("gpu_model", c.gpu_model) ∷ []) config;
    node_ids = c.node_id ∷ [];
  })

  unfoldable pub custom_metric :
      Client → ℕ → String → F → Option ℕ → Option String → List (String × String) → CustomMetric F
  custom_metric c now name value step unit tags = record {
    node_id = c.node_id;
    job_id = c.job_id;
    timestamp_ms = now;
    step = step;
    name = name;
    value = value;
    unit = unit;
    tags = tags;
  }

module _ (fl : Floats) where
  open fl use {F, literal}

  abbrev zero_float : F
  zero_float = literal (pos 0) 1

  abbrev pub no_sample : GpuReadings F
  no_sample = record {
    gpu_temp_c = zero_float;
    gpu_utilization_pct = zero_float;
    fb_used_mb = zero_float;
    fb_free_mb = zero_float;
    power_usage_w = zero_float;
  }

  -- The GPU part of a report: a given value stands before the sampled one.
  unfoldable pub gpu_of : Client → ℕ → GpuReadings F → Given F → GpuMetrics F
  gpu_of c timestamp s given = record {
    node_id = c.node_id;
    gpu_index = 0;
    gpu_model = c.gpu_model;
    timestamp_ms = timestamp;
    gpu_temp_c = value_or given.gpu_temp_c s.gpu_temp_c;
    memory_temp_c = zero_float;
    gpu_utilization_pct = value_or given.gpu_utilization_pct s.gpu_utilization_pct;
    mem_copy_utilization_pct = zero_float;
    fb_used_mb = value_or given.fb_used_mb s.fb_used_mb;
    fb_free_mb = value_or given.fb_free_mb s.fb_free_mb;
    power_usage_w = s.power_usage_w;
    xid_errors = 0;
    ecc_sbe_count = 0;
    ecc_dbe_count = 0;
    clock_throttle_reasons = 0;
    pcie_replay_counter = 0;
    pcie_tx_bytes_per_sec = zero_float;
    pcie_rx_bytes_per_sec = zero_float;
    sm_active_pct = zero_float;
    tensor_active_pct = zero_float;
    retired_pages_sbe = 0;
    retired_pages_dbe = 0;
    remapped_rows_correctable = 0;
    remapped_rows_uncorrectable = 0;
    row_remap_failure = false;
  }

  unfoldable pub training_of : Client → ℕ → ℕ → F → F → F → F → F → TrainingMetrics F
  training_of c timestamp step loss gradient_norm learning_rate throughput_tps mfu_pct = record {
    node_id = c.node_id;
    job_id = c.job_id;
    timestamp_ms = timestamp;
    step = step;
    loss = loss;
    gradient_norm = gradient_norm;
    learning_rate = learning_rate;
    throughput_tps = throughput_tps;
    mfu_pct = mfu_pct;
  }

  -- timestamp_ms or int(time.time() * 1000)
  abbrev pub time_or : Option ℕ → ℕ → ℕ
  time_or none now = now
  time_or (some timestamp) now = if timestamp == 0 then now else timestamp

  -- The payload of `report_training_step`.
  unfoldable pub training_batch :
      Client → ℕ → Option ℕ → GpuReadings F → Given F → ℕ → F → F → F → F → F → MetricsBatch F
  unfolding gpu_of training_of
  training_batch c now timestamp_ms s given step loss gradient_norm learning_rate throughput_tps
        mfu_pct =
      let timestamp = time_or timestamp_ms now in
      record {
        gpu = gpu_of c timestamp s given ∷ [];
        training =
            some (
              training_of c timestamp step loss gradient_norm learning_rate throughput_tps mfu_pct);
        diloco = none;
      }

  -- The payload of `report_torch_step`: a number that cannot be computed raises.
  unfoldable pub torch_batch :
      Machine F
      → Client
      → ℕ
      → GpuReadings F
      → ℕ
      → F
      → List (Option F)
      → List F
      → F
      → ℕ
      → F
      → Result (MetricsBatch F)
  unfolding training_batch compute_grad_norm throughput_of mfu_of
  torch_batch m c now s step loss norms rates batch_time tokens_in_batch peak_tps =
      let throughput = throughput_of fl m tokens_in_batch batch_time in
      or_raise index_error (head? rates) >>= λ learning_rate.
      compute_grad_norm fl m norms >>= λ grad_norm. ok (
        training_batch c now none s
          (record {
            gpu_utilization_pct = none;
            gpu_temp_c = none;
            fb_used_mb = none;
            fb_free_mb = none;
          })
          step loss grad_norm learning_rate throughput (mfu_of fl m peak_tps throughput))

module _ (fl : Floats) {A : Type 0} (loads : String → Result A) (empty : A) where
  open fl use {F}

  unfoldable pub register_job :
      (HttpRequest F → Answer) → Client → String → Dict String String → Result A
  unfolding request registration
  register_job send c name config =
      request loads empty send c "POST" "/api/v1/jobs" (registration c name config)

  unfoldable pub update_job_status : (HttpRequest F → Answer) → Client → String → Result A
  unfolding request
  update_job_status send c status =
      request loads empty send c "PATCH" ("/api/v1/jobs/" <> c.job_id <> "/status")
        (job_status status)

  abbrev report_batch : (HttpRequest F → Answer) → Client → MetricsBatch F → Result A
  report_batch send c b = request loads empty send c "POST" "/api/v1/metrics/batches" (batch b)

  unfoldable pub report_training_step :
      (HttpRequest F → Answer)
      → Client
      → ℕ
      → Option ℕ
      → GpuReadings F
      → Given F
      → ℕ
      → F
      → F
      → F
      → F
      → F
      → Result A
  unfolding request training_batch
  report_training_step send c now timestamp_ms s given step loss gradient_norm learning_rate
        throughput_tps mfu_pct =
      report_batch send c (
        training_batch fl c now timestamp_ms s given step loss gradient_norm learning_rate
          throughput_tps mfu_pct)

  unfoldable pub report_torch_step :
      (HttpRequest F → Answer)
      → Machine F
      → Client
      → ℕ
      → GpuReadings F
      → ℕ
      → F
      → List (Option F)
      → List F
      → F
      → ℕ
      → F
      → Result A
  unfolding request torch_batch
  report_torch_step send m c now s step loss norms rates batch_time tokens_in_batch peak_tps =
      torch_batch fl m c now s step loss norms rates batch_time tokens_in_batch peak_tps
      >>= report_batch send c

  unfoldable pub log_custom_metric : (HttpRequest F → Answer) → Client → CustomMetric F → Result A
  unfolding request
  log_custom_metric send c metric =
      request loads empty send c "POST" "/api/v1/custom-metrics" (custom metric)
