-- ===== src/GrpcServer/Reported.antt =====
-- What comes of the messages of backend/app/grpc_server.py in the stores.
use solprobe.Prelude.{
  ℕ, suc, ◌+◌, ◌≡◌, refl, ap, ◌∙◌, Option, none, some, List, [], ◌∷◌, map, length, arith, string_eq,
}
use solprobe.Models.Metrics.{GpuMetrics, TrainingMetrics, DilocoMetrics, MetricsBatch}
use solprobe.Stores.Metrics.{ingest_batch}
use solprobe.Stores.Metrics.Ingest.{ingest_all}
use solprobe.Stores.World.{World}
use solprobe.GrpcServer.{
  converted, proto_gpu_to_model, proto_training_to_model, proto_diloco_to_model,
  proto_batch_to_model, stream_metrics,
}

module _ {F : Type 0} where
  -- The conversion keeps every field.
  map-proto_gpu_to_model : (gs : List (GpuMetrics F)) → map proto_gpu_to_model gs ≡ gs
  unfolding proto_gpu_to_model
  map-proto_gpu_to_model [] = refl
  map-proto_gpu_to_model (g ∷ gs) = ap (◌∷◌ g) (map-proto_gpu_to_model gs)

  converted-proto_training_to_model :
      (o : Option (TrainingMetrics F)) → converted proto_training_to_model o ≡ o
  unfolding proto_training_to_model
  converted-proto_training_to_model none = refl
  converted-proto_training_to_model (some t) = refl

  converted-proto_diloco_to_model :
      (o : Option (DilocoMetrics F)) → converted proto_diloco_to_model o ≡ o
  unfolding proto_diloco_to_model
  converted-proto_diloco_to_model none = refl
  converted-proto_diloco_to_model (some d) = refl

  proto_batch_to_model_lem : (b : MetricsBatch F) → proto_batch_to_model b ≡ b
  unfolding proto_batch_to_model
  proto_batch_to_model_lem b =
      rw
        (
          map-proto_gpu_to_model b.gpu,
          converted-proto_training_to_model b.training,
          converted-proto_diloco_to_model b.diloco,
        )
        refl

  -- The stores after a stream of batches.
  abbrev pub streamed : World F → List (MetricsBatch F × ℕ × ℕ) → World F
  streamed w batches = record w {
    metrics = (ingest_all w.metrics w.job_registry batches).0;
    job_registry = (ingest_all w.metrics w.job_registry batches).1;
  }

  -- A stream of messages is ingested batch by batch, each under the same rules as over HTTP, and all
  -- of them are counted.
  pub stream_metrics-eq-ingest_all :
      (count : ℕ) (w : World F) (batches : List (MetricsBatch F × ℕ × ℕ))
      → stream_metrics count w batches ≡ (count + length batches, streamed w batches)
  unfolding stream_metrics ingest_all
  stream_metrics-eq-ingest_all count w [] =
      let same : count ≡ count + 0 = omega arith in ap (λ n. (n, w)) same
  stream_metrics-eq-ingest_all count w ((b, t, d) ∷ rest) =
      let (metrics, jobs) = ingest_batch w.metrics w.job_registry b t d in
      let sum : count + 1 + length rest ≡ count + suc (length rest) = omega arith in
      rw (proto_batch_to_model_lem b) (
        stream_metrics-eq-ingest_all (count + 1)
          (record w { metrics = metrics; job_registry = jobs }) rest
        ∙ ap (λ n. (n, streamed w ((b, t, d) ∷ rest))) sum)
