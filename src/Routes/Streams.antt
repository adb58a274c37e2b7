-- ===== src/Routes/Streams.antt =====
-- What `post_metrics_batches` of backend/app/api/routes.py leaves in the stores.
use solprobe.Models.Metrics.{MetricsBatch}
use solprobe.Prelude.{
  Bool, not, ◌||◌, is_some, arith, ℕ, ◌≡◌, refl, ap, ◌∙◌, true, false, List, [], ◌∷◌, ◌++◌, length,
  All, Bool-cases, ◌⊎◌, inl, inr,
}
use solprobe.Stores.Metrics.Ingest.{ingest_all}
use solprobe.Stores.World.{World}
use solprobe.Routes.{Http, replied, rejected, Body, single, several, items_of}
use solprobe.Routes.Nodes.{Timed, has_no_samples, ingest, ingest_items, post_metrics_batches}

module _ {F : Type 0} where
  -- The stores after a stream of batches.
  abbrev pub streamed : World F → List (Timed F) → World F
  streamed w items = record w {
    metrics = (ingest_all w.metrics w.job_registry items).0;
    job_registry = (ingest_all w.metrics w.job_registry items).1;
  }

  -- Whether a batch has a gpu, training or diloco sample.
  abbrev pub is_sampled : MetricsBatch F → Bool
  is_sampled b = elim b.gpu [ [] ↦ is_some b.training || is_some b.diloco | g ∷ gs ↦ true ]

  has_no_samples-is_sampled : (b : MetricsBatch F) → has_no_samples b ≡ not (is_sampled b)
  unfolding has_no_samples
  has_no_samples-is_sampled b = ground arith

  abbrev pub Sampled : List (Timed F) → Type 0
  Sampled items = All (λ item. is_sampled item.0 ≡ true) items

  -- All items were taken in, or those before the first that has no samples.
  abbrev pub Taken : ℕ → World F → List (Timed F) → Http ℕ × World F → Type 0
  Taken accepted w items r =
      ((r ≡ (replied 201 accepted, streamed w items)) × Sampled items)
      ⊎ ((before : List (Timed F)) × (bad : Timed F) × (after : List (Timed F)) × (items
            ≡ before ++ bad ∷ after)
          × (is_sampled bad.0 ≡ false)
          × Sampled before
          × (r ≡ (rejected 400, streamed w before)))

  streamed-ingest :
      (w : World F) (item : Timed F) (items : List (Timed F))
      → streamed (ingest w item) items ≡ streamed w (item ∷ items)
  unfolding ingest ingest_all
  streamed-ingest w item items = refl

  ingest_items-Taken :
      (accepted : ℕ) (w : World F) (items : List (Timed F))
      → Taken accepted w items (ingest_items accepted w items)
  unfolding ingest_items ingest_all
  ingest_items-Taken accepted w [] = inl (refl, tt)
  ingest_items-Taken accepted w (item ∷ items) = elim (Bool-cases (has_no_samples item.0)) [
    | inl empty ↦
        let none_there : is_sampled item.0 ≡ false =
          ground (arith, has_no_samples-is_sampled item.0, empty) in
        inr ([], item, items, refl, none_there, tt, rw empty refl)
    | inr full ↦
        let there : is_sampled item.0 ≡ true =
          ground (arith, has_no_samples-is_sampled item.0, full) in
        elim (ingest_items-Taken accepted (ingest w item) items) [
          | inl (all, ok) ↦ inl (
            rw full (all ∙ ap (λ v. (replied 201 accepted, v)) (streamed-ingest w item items)),
            (there, ok),
          )
          | inr (before, bad, after, split, empty, ok, r) ↦ inr (
            item ∷ before,
            bad,
            after,
            ap (◌∷◌ item) split,
            empty,
            (there, ok),
            rw full (r ∙ ap (λ v. (rejected 400, v)) (streamed-ingest w item before)),
          )
        ]
  ]

  -- A list of batches that is empty is rejected. Else every batch has samples, and all of them are
  -- ingested in order and counted; or the first that has none is rejected, and those before it stay
  -- ingested.
  pub post_metrics_batches_lem :
      (w : World F) (body : Body (Timed F))
      → ((items_of body ≡ []) × (post_metrics_batches w body ≡ (rejected 400, w)))
        ⊎ ((first : Timed F) × (rest : List (Timed F)) × (items_of body ≡ first ∷ rest)
            × Taken (length (items_of body)) w (items_of body) (post_metrics_batches w body))
  unfolding post_metrics_batches
  post_metrics_batches_lem w (single item) =
      inr (item, [], refl, ingest_items-Taken 1 w (item ∷ []))
  post_metrics_batches_lem w (several []) = inl (refl, refl)
  post_metrics_batches_lem w (several (item ∷ items)) =
      inr (item, items, refl, ingest_items-Taken (length (item ∷ items)) w (item ∷ items))
