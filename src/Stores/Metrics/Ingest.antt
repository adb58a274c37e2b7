-- ===== src/Stores/Metrics/Ingest.antt =====
-- `ingest_batch`: what it does to each node and each job, and streams of batches.
use solprobe.Prelude.{
  ℕ, ◌≡◌, refl, ap, ◌∙◌, String, some, List, [], ◌∷◌, ◌++◌, foldl, arith, ◌==◌, string_eq, eq_iff,
  if◌then◌else◌, Option-cases, Bool-cases, inl, inr, option_eq,
}
use solprobe.Prelude.Dict.{get, keys, get-put}
use solprobe.Prelude.Dict.Order.{Distinct, Distinct-put, Items, Items-put, Items-get}
use solprobe.Prelude.Ring.{push, take_last, foldl-push_empty}
use solprobe.Models.Metrics.{TrainingMetrics, MetricsBatch}
use solprobe.Stores.Jobs.{JobStore}
use solprobe.Stores.Metrics.{
  NodeBuffer, MetricsStore, ring_buffer_size, batch_node_id, absorb, buffer_or_new, ingest_batch,
}
use solprobe.Stores.Metrics.Buffers.{
  IsBuffer, new_buffer-IsBuffer, absorb-IsBuffer, node_id-absorb, training_list,
  training_metrics-absorb, foldl-training_list,
}

module _ {F : Type 0} where
  abbrev pub IsNode : String → NodeBuffer F → Type 0
  IsNode k buf = (buf.node_id ≡ k) × IsBuffer buf

  pub record IsStore (s : MetricsStore F) : Type 0 where
    pub distinct : Distinct (keys s.nodes)
    pub buffers : Items IsNode s.nodes

  buffer_or_new-IsNode :
      (s : MetricsStore F) (n : String) → IsStore s → IsNode n (buffer_or_new n s)
  unfolding buffer_or_new
  buffer_or_new-IsNode s n v = elim (Option-cases (get n s.nodes)) [
    | inl e ↦ rw (e, buffer_or_new) (refl, new_buffer-IsBuffer n)
    | inr (buf, e) ↦ rw (e, buffer_or_new) (Items-get IsNode n buf s.nodes v.buffers e)
  ]

  -- Ingesting any batch keeps every buffer bounded, dated and under its own node.
  pub ingest_batch-IsStore :
      (s : MetricsStore F) (jobs : JobStore) (b : MetricsBatch F) (now_t now_d : ℕ)
      → IsStore s
      → IsStore (ingest_batch s jobs b now_t now_d).0
  unfolding ingest_batch
  ingest_batch-IsStore s jobs b now_t now_d v = elim (Option-cases (batch_node_id b)) [
    | inl e ↦ rw (e, ingest_batch) v
    | inr (n, e) ↦
        let old : IsNode n (buffer_or_new n s) = buffer_or_new-IsNode s n v in
        rw (e, ingest_batch)
          (record {
            distinct = Distinct-put n _ s.nodes v.distinct;
            buffers =
                Items-put IsNode n _ s.nodes v.buffers
                  (node_id-absorb b (buffer_or_new n s) ∙ old.0, absorb-IsBuffer b _ old.1);
          })
  ]

  -- A batch goes to the buffer of its own node, and to no other.
  pub buffer_or_new-ingest_batch :
      (s : MetricsStore F) (jobs : JobStore) (b : MetricsBatch F) (now_t now_d : ℕ) (j : String)
      → buffer_or_new j (ingest_batch s jobs b now_t now_d).0
        ≡ (if batch_node_id b == some j then absorb b (buffer_or_new j s) else buffer_or_new j s)
  unfolding ingest_batch buffer_or_new
  buffer_or_new-ingest_batch s jobs b now_t now_d j = elim (Option-cases (batch_node_id b)) [
    | inl e ↦ rw (e, ingest_batch) refl
    | inr (n, e) ↦ ground (arith, get-put n j (absorb b (buffer_or_new n s)) s.nodes, eq_iff n j)
  ]

  -- A stream of batches, each with the readings of the clock at its marks of progress.
  unfoldable pub ingest_all :
      MetricsStore F → JobStore → List (MetricsBatch F × ℕ × ℕ) → MetricsStore F × JobStore
  unfolding ingest_batch
  ingest_all s jobs [] = (s, jobs)
  ingest_all s jobs ((b, now_t, now_d) ∷ rest) =
      let (s', jobs') = ingest_batch s jobs b now_t now_d in ingest_all s' jobs' rest

  -- The training samples that a stream brings for a node, oldest first.
  pub training_samples : String → List (MetricsBatch F × ℕ × ℕ) → List (TrainingMetrics F)
  training_samples n [] = []
  training_samples n ((b, now_t, now_d) ∷ rest) =
      if batch_node_id b == some n
      then training_list b.training ++ training_samples n rest
      else training_samples n rest

  -- Whatever a stream of batches brings, a well-formed store stays so: every node has one buffer,
  -- and each buffer is under its own node, within its bounds and dated.
  pub ingest_all-IsStore :
      (s : MetricsStore F) (jobs : JobStore) (bs : List (MetricsBatch F × ℕ × ℕ))
      → IsStore s
      → IsStore (ingest_all s jobs bs).0
  unfolding ingest_all
  ingest_all-IsStore s jobs [] v = v
  ingest_all-IsStore s jobs ((b, now_t, now_d) ∷ rest) v =
      let (s', jobs') = ingest_batch s jobs b now_t now_d in
      ingest_all-IsStore s' jobs' rest (ingest_batch-IsStore s jobs b now_t now_d v)

  -- The ring of a node is filled by the training samples of its own batches, in order.
  training-ingest_all :
      (s : MetricsStore F) (jobs : JobStore) (bs : List (MetricsBatch F × ℕ × ℕ)) (n : String)
      → (buffer_or_new n (ingest_all s jobs bs).0).training_metrics
        ≡ foldl (push ring_buffer_size) (buffer_or_new n s).training_metrics (training_samples n bs)
  unfolding ingest_all training_samples
  training-ingest_all s jobs [] n = refl
  training-ingest_all s jobs ((b, now_t, now_d) ∷ rest) n =
      let (s', jobs') = ingest_batch s jobs b now_t now_d in
      let ih = training-ingest_all s' jobs' rest n in
      let step = buffer_or_new-ingest_batch s jobs b now_t now_d n in
      elim (Bool-cases (batch_node_id b == some n)) [
        | inl mine ↦
            let stored : buffer_or_new n s' ≡ absorb b (buffer_or_new n s) = rw mine at step in
            rw mine (
              ih
              ∙ ap
                  (λ buf.
                    foldl (push ring_buffer_size) buf.training_metrics (training_samples n rest))
                  stored
              ∙ ap (λ r. foldl (push ring_buffer_size) r (training_samples n rest))
                  (training_metrics-absorb b (buffer_or_new n s))
              ∙ foldl-training_list b.training (buffer_or_new n s).training_metrics
                  (training_samples n rest))
        | inr other ↦
            let kept : buffer_or_new n s' ≡ buffer_or_new n s = rw other at step in
            rw other (
              ih
              ∙ ap
                  (λ buf.
                    foldl (push ring_buffer_size) buf.training_metrics (training_samples n rest))
                  kept)
      ]

  abbrev pub empty_store : MetricsStore F
  empty_store = record { nodes = [] }

  -- Whatever stream of batches an empty store has ingested, it holds for each node exactly the
  -- newest 1800 of the training samples of the batches of that node.
  pub training-ingest_all-eq-take_last :
      (jobs : JobStore) (bs : List (MetricsBatch F × ℕ × ℕ)) (n : String)
      → (buffer_or_new n (ingest_all empty_store jobs bs).0).training_metrics
        ≡ take_last ring_buffer_size (training_samples n bs)
  unfolding buffer_or_new take_last
  training-ingest_all-eq-take_last jobs bs n =
      training-ingest_all empty_store jobs bs n
      ∙ foldl-push_empty ring_buffer_size (training_samples n bs)
