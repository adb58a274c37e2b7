-- ===== src/Training/Colab/Posted.antt =====
-- What the backend has of a client for notebooks after a report.
use solprobe.Prelude.{ℕ, ◌≡◌, refl, ap, arith, Option, none, some, [], ◌∷◌, string_eq}
use solprobe.Prelude.Floats.{Floats}
use solprobe.Prelude.Dict.{get-put_self}
use solprobe.Prelude.Ring.{last?-push}
use solprobe.Models.Metrics.{NodeStatus}
use solprobe.Stores.Metrics.{
  batch_node_id, or_empty, buffer_or_new, absorb, ring_buffer_size, status_of, get_node_status,
}
use solprobe.Stores.World.{World}
use solprobe.Routes.{replied, single}
use solprobe.Routes.Nodes.{post_metrics_batches, ingest}
use solprobe.Training.Colab.{
  Client, GpuReadings, Given, gpu_of, training_of, training_batch, time_or,
}

module _ (fl : Floats) where
  open fl use {F}

  -- A report of a training step over HTTP is accepted, and then the status of its node shows the GPU
  -- sample, the training step and the model of the GPU that the client has made of it.
  pub post-training_batch :
      (w : World F) (c : Client) (now : ℕ) (timestamp_ms : Option ℕ) (s : GpuReadings F)
      (given : Given F) (step : ℕ) (loss g lr tps mfu : F) (t d : ℕ)
      → (w' : World F) × (post_metrics_batches w
            (single (training_batch fl c now timestamp_ms s given step loss g lr tps mfu, t, d))
          ≡ (replied 201 1, w'))
        × (st : NodeStatus F) × (get_node_status w'.metrics c.node_id ≡ some st)
        × (st.gpu_model ≡ c.gpu_model)
        × (st.latest_metrics ≡ gpu_of fl c (time_or fl timestamp_ms now) s given ∷ [])
        × (st.latest_training
            ≡ some (training_of fl c (time_or fl timestamp_ms now) step loss g lr tps mfu))
  unfolding post_metrics_batches get_node_status training_batch batch_node_id absorb
  post-training_batch w c now timestamp_ms s given step loss g lr tps mfu t d =
      let b = training_batch fl c now timestamp_ms s given step loss g lr tps mfu in
      let buf = absorb b (buffer_or_new c.node_id w.metrics) in
      (
        ingest w (b, t, d),
        refl,
        status_of buf,
        ap (λ o. elim o [ none ↦ none | some buf ↦ some (status_of buf) ])
            (get-put_self c.node_id buf w.metrics.nodes),
        refl,
        ap or_empty (
            last?-push ring_buffer_size (buffer_or_new c.node_id w.metrics).gpu_metrics _
              (omega arith)),
        last?-push ring_buffer_size (buffer_or_new c.node_id w.metrics).training_metrics _
            (omega arith),
      )
