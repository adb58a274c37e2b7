-- ===== src/Stores/Metrics/Buffers.antt =====
-- The buffer of one node: its bounds, and what it holds of all that was stored into it.
use solprobe.Prelude.{
  ◌≢◌, ℕ, ◌≤◌, ◌≡◌, refl, max, String, Option, none, some, List, [], ◌∷◌, ◌++◌, foldl, arith,
  length, All,
}
use solprobe.Prelude.Ring.{push, length-push-le, All-push}
use solprobe.Models.Metrics.{GpuMetrics, TrainingMetrics, DilocoMetrics, MetricsBatch}
use solprobe.Stores.Metrics.{
  NodeBuffer, ring_buffer_size, new_buffer, max_timestamp, store_gpu, store_training, store_diloco,
  absorb,
}

module _ {F : Type 0} where
  -- Every stored sample is as old as the last sign of life, and no stored snapshot is empty.
  abbrev pub SnapshotBy : ℕ → List (GpuMetrics F) → Type 0
  SnapshotBy t gs = (gs ≢ []) × (max_timestamp gs ≤ t)

  pub record IsBuffer (buf : NodeBuffer F) : Type 0 where
    pub gpu_bounded : length buf.gpu_metrics ≤ ring_buffer_size
    pub training_bounded : length buf.training_metrics ≤ ring_buffer_size
    pub diloco_bounded : length buf.diloco_metrics ≤ ring_buffer_size
    pub gpu_seen : All (SnapshotBy buf.last_seen_ms) buf.gpu_metrics
    pub training_seen : All (λ t. t.timestamp_ms ≤ buf.last_seen_ms) buf.training_metrics
    pub diloco_seen : All (λ d. d.timestamp_ms ≤ buf.last_seen_ms) buf.diloco_metrics

  pub new_buffer-IsBuffer : (node_id : String) → IsBuffer (new_buffer node_id)
  new_buffer-IsBuffer node_id = omega arith

  SnapshotBy-mono :
      {s t : ℕ} (gss : List (List (GpuMetrics F)))
      → s ≤ t
      → All (SnapshotBy s) gss
      → All (SnapshotBy t) gss
  SnapshotBy-mono [] h a = tt
  SnapshotBy-mono (gs ∷ gss) h a = ((a.0.0, omega arith), SnapshotBy-mono gss h a.1)

  training_mono :
      {s t : ℕ} (ms : List (TrainingMetrics F))
      → s ≤ t
      → All (λ m. m.timestamp_ms ≤ s) ms
      → All (λ m. m.timestamp_ms ≤ t) ms
  training_mono [] h a = tt
  training_mono (m ∷ ms) h a = (omega arith, training_mono ms h a.1)

  diloco_mono :
      {s t : ℕ} (ms : List (DilocoMetrics F))
      → s ≤ t
      → All (λ m. m.timestamp_ms ≤ s) ms
      → All (λ m. m.timestamp_ms ≤ t) ms
  diloco_mono [] h a = tt
  diloco_mono (m ∷ ms) h a = (omega arith, diloco_mono ms h a.1)

  store_gpu-IsBuffer :
      (gs : List (GpuMetrics F)) (buf : NodeBuffer F) → IsBuffer buf → IsBuffer (store_gpu gs buf)
  unfolding store_gpu
  store_gpu-IsBuffer [] buf v = v
  store_gpu-IsBuffer (g ∷ gs) buf v =
      let seen : ℕ = max buf.last_seen_ms (max_timestamp (g ∷ gs)) in
      let later : buf.last_seen_ms ≤ seen = omega arith in
      record {
        gpu_bounded = length-push-le ring_buffer_size buf.gpu_metrics (g ∷ gs);
        training_bounded = v.training_bounded;
        diloco_bounded = v.diloco_bounded;
        gpu_seen =
            All-push (SnapshotBy seen) ring_buffer_size buf.gpu_metrics (g ∷ gs)
              (SnapshotBy-mono buf.gpu_metrics later v.gpu_seen) (ground arith, omega arith);
        training_seen = training_mono buf.training_metrics later v.training_seen;
        diloco_seen = diloco_mono buf.diloco_metrics later v.diloco_seen;
      }

  store_training-IsBuffer :
      (m : Option (TrainingMetrics F)) (buf : NodeBuffer F)
      → IsBuffer buf
      → IsBuffer (store_training m buf)
  unfolding store_training
  store_training-IsBuffer none buf v = v
  store_training-IsBuffer (some t) buf v =
      let seen : ℕ = max buf.last_seen_ms t.timestamp_ms in
      let later : buf.last_seen_ms ≤ seen = omega arith in
      record {
        gpu_bounded = v.gpu_bounded;
        training_bounded = length-push-le ring_buffer_size buf.training_metrics t;
        diloco_bounded = v.diloco_bounded;
        gpu_seen = SnapshotBy-mono buf.gpu_metrics later v.gpu_seen;
        training_seen =
            All-push (λ m. m.timestamp_ms ≤ seen) ring_buffer_size buf.training_metrics t
              (training_mono buf.training_metrics later v.training_seen) (omega arith);
        diloco_seen = diloco_mono buf.diloco_metrics later v.diloco_seen;
      }

  store_diloco-IsBuffer :
      (m : Option (DilocoMetrics F)) (buf : NodeBuffer F)
      → IsBuffer buf
      → IsBuffer (store_diloco m buf)
  unfolding store_diloco
  store_diloco-IsBuffer none buf v = v
  store_diloco-IsBuffer (some d) buf v =
      let seen : ℕ = max buf.last_seen_ms d.timestamp_ms in
      let later : buf.last_seen_ms ≤ seen = omega arith in
      record {
        gpu_bounded = v.gpu_bounded;
        training_bounded = v.training_bounded;
        diloco_bounded = length-push-le ring_buffer_size buf.diloco_metrics d;
        gpu_seen = SnapshotBy-mono buf.gpu_metrics later v.gpu_seen;
        training_seen = training_mono buf.training_metrics later v.training_seen;
        diloco_seen =
            All-push (λ m. m.timestamp_ms ≤ seen) ring_buffer_size buf.diloco_metrics d
              (diloco_mono buf.diloco_metrics later v.diloco_seen) (omega arith);
      }

  pub absorb-IsBuffer :
      (b : MetricsBatch F) (buf : NodeBuffer F) → IsBuffer buf → IsBuffer (absorb b buf)
  unfolding absorb
  absorb-IsBuffer b buf v =
      store_diloco-IsBuffer b.diloco _
        (store_training-IsBuffer b.training _ (store_gpu-IsBuffer b.gpu buf v))

  -- Storing never moves the last sign of life back.
  pub last_seen-absorb-le :
      (b : MetricsBatch F) (buf : NodeBuffer F) → buf.last_seen_ms ≤ (absorb b buf).last_seen_ms
  unfolding absorb store_gpu store_training store_diloco
  last_seen-absorb-le b buf = ground arith

  -- The training sample of a batch, as a list.
  abbrev pub training_list : Option (TrainingMetrics F) → List (TrainingMetrics F)
  training_list none = []
  training_list (some t) = t ∷ []

  pub training_metrics-absorb :
      (b : MetricsBatch F) (buf : NodeBuffer F)
      → (absorb b buf).training_metrics
        ≡ foldl (push ring_buffer_size) buf.training_metrics (training_list b.training)
  unfolding absorb store_gpu store_training store_diloco
  training_metrics-absorb b buf = ground arith

  pub foldl-training_list :
      (t : Option (TrainingMetrics F)) (r ms : List (TrainingMetrics F))
      → foldl (push ring_buffer_size) (foldl (push ring_buffer_size) r (training_list t)) ms
        ≡ foldl (push ring_buffer_size) r (training_list t ++ ms)
  foldl-training_list none r ms = refl
  foldl-training_list (some t) r ms = refl

  pub node_id-absorb :
      (b : MetricsBatch F) (buf : NodeBuffer F) → (absorb b buf).node_id ≡ buf.node_id
  unfolding absorb store_gpu store_training store_diloco
  node_id-absorb b buf = ground arith
