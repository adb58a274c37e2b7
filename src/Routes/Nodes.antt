-- ===== src/Routes/Nodes.antt =====
-- The node endpoints of backend/app/api/routes.py.
use solprobe.Prelude.{
  ℕ, String, Bool, true, false, not, ◌&&◌, none, some, List, [], ◌∷◌, map, is_some, length,
  if◌then◌else◌,
}
use solprobe.Models.Metrics.{MetricsBatch, NodeStatus}
use solprobe.Enrichment.{Dump, gpu_dumps, training_dump, diloco_dump}
use solprobe.Stores.Metrics.{
  ingest_batch, get_node_status, get_all_node_statuses, get_gpu_history, get_training_history,
  get_diloco_history,
}
use solprobe.Stores.World.{World}
use solprobe.Routes.{Http, replied, rejected, Body, items_of, in_range}

-- A batch with the clock at its marks of progress.
abbrev pub Timed : Type 0 → Type 0
Timed F = MetricsBatch F × ℕ × ℕ

pub record NodeMetrics (F : Type 0) : Type 0 where
  pub node_id : String
  pub window_minutes : ℕ
  pub resolution_seconds : ℕ
  pub gpu_metrics : List (Dump F)
  pub training_metrics : List (Dump F)
  pub diloco_metrics : List (Dump F)

module _ {F : Type 0} where
  -- `not batch.gpu and batch.training is None and batch.diloco is None`
  unfoldable pub has_no_samples : MetricsBatch F → Bool
  has_no_samples b =
      elim b.gpu [ [] ↦ true | g ∷ gs ↦ false ]
      && not (is_some b.training)
      && not (is_some b.diloco)

  unfoldable pub ingest : World F → Timed F → World F
  unfolding ingest_batch
  ingest w (b, now_training, now_diloco) =
      let (metrics, jobs) = ingest_batch w.metrics w.job_registry b now_training now_diloco in
      record w { metrics = metrics; job_registry = jobs }

  -- The loop over the items; `accepted` is the number of all items.
  unfoldable pub ingest_items : ℕ → World F → List (Timed F) → Http ℕ × World F
  unfolding has_no_samples ingest
  ingest_items accepted w [] = (replied 201 accepted, w)
  ingest_items accepted w (item ∷ items) =
      let rest = ingest_items accepted (ingest w item) items in
      if has_no_samples item.0 then (rejected 400, w) else rest

  unfoldable pub accept_batches : World F → List (Timed F) → Http ℕ × World F
  unfolding ingest_items
  accept_batches w [] = (rejected 400, w)
  accept_batches w (item ∷ items) = ingest_items (length (item ∷ items)) w (item ∷ items)

  unfoldable pub post_metrics_batches : World F → Body (Timed F) → Http ℕ × World F
  unfolding accept_batches
  post_metrics_batches w body = accept_batches w (items_of body)

  unfoldable pub list_nodes : World F → List (NodeStatus F)
  unfolding get_all_node_statuses
  list_nodes w = get_all_node_statuses w.metrics

  unfoldable pub node_metrics : World F → String → ℕ → ℕ → Http (NodeMetrics F)
  unfolding get_node_status gpu_dumps get_gpu_history get_training_history get_diloco_history
  node_metrics w node_id window_minutes resolution_seconds =
      elim (get_node_status w.metrics node_id) [
        | none ↦ rejected 404
        | some status ↦ replied 200 (record {
          node_id = node_id;
          window_minutes = window_minutes;
          resolution_seconds = resolution_seconds;
          gpu_metrics =
              gpu_dumps (get_gpu_history w.metrics node_id window_minutes resolution_seconds);
          training_metrics =
              map training_dump (get_training_history w.metrics node_id window_minutes);
          diloco_metrics = map diloco_dump (get_diloco_history w.metrics node_id window_minutes);
        })
      ]

  unfoldable pub get_node_metrics : World F → String → ℕ → ℕ → Http (NodeMetrics F)
  unfolding node_metrics
  get_node_metrics w node_id window_minutes resolution_seconds =
      if in_range 1 60 window_minutes && in_range 1 60 resolution_seconds
      then node_metrics w node_id window_minutes resolution_seconds
      else rejected 422
