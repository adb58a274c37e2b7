-- ===== src/Stores/Metrics.antt =====
-- `MetricsStore` and `_NodeBuffer` of backend/app/stores.py, over a type `F` of floating point
-- numbers. Time stamps are natural numbers of milliseconds.
pub mod Buffers
pub mod Ingest
pub mod Progress
pub mod Series
use solprobe.Prelude.{
  ℕ, zero, suc, ◌-◌, ◌*◌, max, String, Bool, true, false, Option, none, some, List, [], ◌∷◌, map,
  foldl, if◌then◌else◌, ltb, ◌==◌, string_eq, length, last?,
}
use solprobe.Prelude.Dict.{Dict, get, put, keys, values}
use solprobe.Prelude.Ring.{push, slice_last}
use solprobe.Prelude.Result.{Result, ok, err}
use solprobe.Models.Metrics.{GpuMetrics, TrainingMetrics, DilocoMetrics, MetricsBatch, NodeStatus}
use solprobe.Stores.Jobs.{Job, JobStore, update_status, touch, get_job}

abbrev pub ring_buffer_size : ℕ
ring_buffer_size = 1800

pub record NodeBuffer (F : Type 0) : Type 0 where
  pub node_id : String
  pub gpu_model : String
  pub gpu_count : ℕ
  pub gpu_metrics : List (List (GpuMetrics F))
  pub training_metrics : List (TrainingMetrics F)
  pub diloco_metrics : List (DilocoMetrics F)
  pub last_seen_ms : ℕ

pub record MetricsStore (F : Type 0) : Type 0 where
  pub nodes : Dict String (NodeBuffer F)

-- A call that raises leaves the registry as it was.
abbrev pub after_call : JobStore → Result JobStore → JobStore
after_call s (ok t) = t
after_call s (err e) = s

-- `_mark_job_progress`; `now` is the clock that the registry reads.
unfoldable pub mark_job_progress : JobStore → String → ℕ → JobStore
mark_job_progress jobs job_id now = if job_id == "" then jobs else elim (get_job jobs job_id) [
  | none ↦ jobs
  | some job ↦
      if job.status == "registered"
      then after_call jobs (update_status jobs job_id "running" now)
      else touch jobs job_id now
]

-- data[::r] for r > 1; `skip` entries are left out before the next one.
unfoldable pub stride {ℓ} : {A : Type ℓ} → ℕ → ℕ → List A → List A
stride r skip [] = []
stride r zero (x ∷ xs) = x ∷ stride r (r - 1) xs
stride r (suc skip) (x ∷ xs) = stride r skip xs

module _ {F : Type 0} where
  abbrev pub new_buffer : String → NodeBuffer F
  new_buffer node_id = record {
    node_id = node_id;
    gpu_model = "";
    gpu_count = 0;
    gpu_metrics = [];
    training_metrics = [];
    diloco_metrics = [];
    last_seen_ms = 0;
  }

  -- max(g.timestamp_ms for g in gpu), for a list that is not empty
  unfoldable pub max_timestamp : List (GpuMetrics F) → ℕ
  max_timestamp [] = 0
  max_timestamp (g ∷ gs) = max g.timestamp_ms (max_timestamp gs)

  -- the node of a batch: of its first GPU sample, else of its training or DiLoCo sample
  abbrev node_of :
      List (GpuMetrics F) → Option (TrainingMetrics F) → Option (DilocoMetrics F) → Option String
  node_of (g ∷ gs) training diloco = some g.node_id
  node_of [] (some t) diloco = some t.node_id
  node_of [] none (some d) = some d.node_id
  node_of [] none none = none

  unfoldable pub batch_node_id : MetricsBatch F → Option String
  batch_node_id b = node_of b.gpu b.training b.diloco

  -- the three blocks of `ingest_batch` under the lock, on the buffer
  unfoldable pub store_gpu : List (GpuMetrics F) → NodeBuffer F → NodeBuffer F
  unfolding push max_timestamp
  store_gpu [] buf = buf
  store_gpu (g ∷ gs) buf = record buf {
    gpu_metrics = push ring_buffer_size buf.gpu_metrics (g ∷ gs);
    gpu_model = g.gpu_model;
    gpu_count = length (g ∷ gs);
    last_seen_ms = max buf.last_seen_ms (max_timestamp (g ∷ gs));
  }

  unfoldable pub store_training : Option (TrainingMetrics F) → NodeBuffer F → NodeBuffer F
  unfolding push
  store_training none buf = buf
  store_training (some t) buf = record buf {
    training_metrics = push ring_buffer_size buf.training_metrics t;
    last_seen_ms = max buf.last_seen_ms t.timestamp_ms;
  }

  unfoldable pub store_diloco : Option (DilocoMetrics F) → NodeBuffer F → NodeBuffer F
  unfolding push
  store_diloco none buf = buf
  store_diloco (some d) buf = record buf {
    diloco_metrics = push ring_buffer_size buf.diloco_metrics d;
    last_seen_ms = max buf.last_seen_ms d.timestamp_ms;
  }

  unfoldable pub absorb : MetricsBatch F → NodeBuffer F → NodeBuffer F
  unfolding store_gpu store_training store_diloco
  absorb b buf = store_diloco b.diloco (store_training b.training (store_gpu b.gpu buf))

  -- the two calls of `_mark_job_progress`
  unfoldable pub mark_training : Option (TrainingMetrics F) → ℕ → JobStore → JobStore
  mark_training none now jobs = jobs
  mark_training (some t) now jobs = mark_job_progress jobs t.job_id now

  unfoldable pub mark_diloco : Option (DilocoMetrics F) → ℕ → JobStore → JobStore
  mark_diloco none now jobs = jobs
  mark_diloco (some d) now jobs = mark_job_progress jobs d.job_id now

  unfoldable pub buffer_or_new : String → MetricsStore F → NodeBuffer F
  unfolding get
  buffer_or_new node_id s = elim (get node_id s.nodes) [
    | none ↦ new_buffer node_id
    | some buf ↦ buf
  ]

  -- `now_training` and `now_diloco` are the clock at the two marks of progress.
  unfoldable pub ingest_batch :
      MetricsStore F → JobStore → MetricsBatch F → ℕ → ℕ → MetricsStore F × JobStore
  ingest_batch s jobs b now_training now_diloco = elim (batch_node_id b) [
    | none ↦ (s, jobs)
    | some node_id ↦ (
      record s { nodes = put node_id (absorb b (buffer_or_new node_id s)) s.nodes },
      mark_diloco b.diloco now_diloco (mark_training b.training now_training jobs),
    )
  ]

  unfoldable pub get_node_ids : MetricsStore F → List String
  get_node_ids s = keys s.nodes

  abbrev pub or_empty : Option (List (GpuMetrics F)) → List (GpuMetrics F)
  or_empty none = []
  or_empty (some gs) = gs

  unfoldable pub status_of : NodeBuffer F → NodeStatus F
  status_of buf = record {
    node_id = buf.node_id;
    gpu_model = buf.gpu_model;
    gpu_count = buf.gpu_count;
    last_seen_ms = buf.last_seen_ms;
    latest_metrics = or_empty (last? buf.gpu_metrics);
    latest_training = last? buf.training_metrics;
    latest_diloco = last? buf.diloco_metrics;
  }

  unfoldable pub get_node_status : MetricsStore F → String → Option (NodeStatus F)
  unfolding get status_of
  get_node_status s node_id = elim (get node_id s.nodes) [
    | none ↦ none
    | some buf ↦ some (status_of buf)
  ]

  unfoldable pub get_all_node_statuses : MetricsStore F → List (NodeStatus F)
  unfolding status_of
  get_all_node_statuses s = map status_of (values s.nodes)

  unfoldable pub get_gpu_history : MetricsStore F → String → ℕ → ℕ → List (List (GpuMetrics F))
  unfolding get slice_last stride
  get_gpu_history s node_id window_minutes resolution_seconds = elim (get node_id s.nodes) [
    | none ↦ []
    | some buf ↦
        let samples = slice_last (window_minutes * 60) buf.gpu_metrics in
        if ltb 1 resolution_seconds then stride resolution_seconds 0 samples else samples
  ]

  unfoldable pub get_training_history : MetricsStore F → String → ℕ → List (TrainingMetrics F)
  unfolding get slice_last
  get_training_history s node_id window_minutes = elim (get node_id s.nodes) [
    | none ↦ []
    | some buf ↦ slice_last (window_minutes * 60) buf.training_metrics
  ]

  unfoldable pub get_diloco_history : MetricsStore F → String → ℕ → List (DilocoMetrics F)
  unfolding get slice_last
  get_diloco_history s node_id window_minutes = elim (get node_id s.nodes) [
    | none ↦ []
    | some buf ↦ slice_last (window_minutes * 60) buf.diloco_metrics
  ]

  unfoldable pub node_count : MetricsStore F → ℕ
  node_count s = length s.nodes
