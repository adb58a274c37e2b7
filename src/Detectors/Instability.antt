-- ===== src/Detectors/Instability.antt =====
-- backend/app/detectors/numeric_instability.py.
use solprobe.Prelude.{
  ℕ, ◌≤◌, ◌≡◌, refl, sym, ap, ◌∙◌, subst, String, ◌<>◌, true, false, not, none, some, List, [], ◌∷◌,
  ◌++◌, map, arith, if◌then◌else◌, ltb, string_eq, nat_eq, pair_eq, contains, length, last?,
  filter_by, Bool-cases, Option-cases, inl, inr, beq_refl,
}
use solprobe.Prelude.Int.{pos}
use solprobe.Models.Metrics.{TrainingMetrics, training_field}
use solprobe.Models.Alerts.{Alert, Anomaly}
use solprobe.Stores.Metrics.{get_node_ids, get_training_history}
use solprobe.Stores.World.{World, Env, emit}
use solprobe.Detectors.Policy.{Outcome, quiet, raised, fired}
use solprobe.Detectors.Policy.Readers.{job_or_none}

abbrev pub max_emitted_steps : ℕ
max_emitted_steps = 4096

-- (node_id, step)
abbrev pub StepKey : Type 0
StepKey = String × ℕ

abbrev pub monitored : List String
monitored = "loss" ∷ "gradient_norm" ∷ "throughput_tps" ∷ "mfu_pct" ∷ []

-- sep.join(xs)
unfoldable pub join : String → List String → String
join sep [] = ""
join sep (x ∷ []) = x
join sep (x ∷ y ∷ rest) = x <> sep <> join sep (y ∷ rest)

-- `popped` is what a set has left after as many calls of `pop` as the number says.
unfoldable pub evict_if_full : (ℕ → List StepKey → List StepKey) → List StepKey → List StepKey
evict_if_full popped emitted =
    if ltb max_emitted_steps (length emitted) then popped 2048 emitted else emitted

module _ (env : Env) (popped : ℕ → List StepKey → List StepKey) where
  open env use {floats, uuid, show}
  open floats use {F, of_int, is_finite, repr}

  -- getattr(latest, field, 0.0)
  abbrev value_of : TrainingMetrics F → String → F
  value_of m field = elim (training_field floats m field) [ none ↦ of_int (pos 0) | some x ↦ x ]

  unfoldable pub bad_fields : TrainingMetrics F → List String
  bad_fields m = filter_by (λ field. not (is_finite (value_of m field))) monitored

  unfoldable pub instability_alert : String → ℕ → String → TrainingMetrics F → Alert F
  instability_alert id now node_id latest =
      let bad = bad_fields latest in
      record {
        alert_id = id;
        node_id = node_id;
        timestamp_ms = now;
        severity = "CRITICAL";
        source = "CENTRAL";
        alert_type = "numeric_instability";
        description =
            "Non-finite training metric on node "
            <> node_id
            <> " at step "
            <> show latest.step
            <> ": "
            <> join ", " (map (λ f. f <> "=" <> repr (value_of latest f)) bad);
        confidence = of_int (pos 1);
        evidence =
            ("detector", "numeric_instability")
            ∷ ("non_finite_fields", join "," bad)
            ∷ ("step", show latest.step)
            ∷ map (λ f. ("value_" <> f, repr (value_of latest f))) bad;
        gpu_index = none;
        job_id = job_or_none latest.job_id;
      }

  unfoldable pub inspect :
      World F
      → List StepKey
      → ℕ
      → String
      → TrainingMetrics F
      → List String
      → Outcome F × World F × List StepKey
  inspect w emitted now node_id latest [] = (quiet, w, emitted)
  inspect w emitted now node_id latest (b ∷ bad) =
      if contains emitted (node_id, latest.step)
      then (quiet, w, emitted)
      else (let finding : Anomaly F = record {
        alert = instability_alert (uuid w.issued) now node_id latest;
        detector_name = "numeric_instability";
        window_minutes = 1;
        raw_score = of_int (pos (length (b ∷ bad)));
      } in
          (fired finding, emit w finding, evict_if_full popped ((node_id, latest.step) ∷ emitted)))

  -- The body of the loop over the nodes; `now` is the clock.
  unfoldable pub inspect_node :
      World F → List StepKey → ℕ → String → Outcome F × World F × List StepKey
  unfolding inspect get_training_history
  inspect_node w emitted now node_id = elim (last? (get_training_history w.metrics node_id 1)) [
    | none ↦ (quiet, w, emitted)
    | some latest ↦ inspect w emitted now node_id latest (bad_fields latest)
  ]

  abbrev found_by : Outcome F → List (Anomaly F)
  found_by quiet = []
  found_by raised = []
  found_by (fired a) = a ∷ []

  -- The loop; each node comes with the reading of the clock.
  unfoldable pub inspect_nodes :
      World F
      → List StepKey
      → List (Anomaly F)
      → (String → ℕ)
      → List String
      → List (Anomaly F) × World F × List StepKey
  unfolding inspect_node
  inspect_nodes w emitted findings now [] = (findings, w, emitted)
  inspect_nodes w emitted findings now (node_id ∷ rest) =
      let (outcome, w', emitted') = inspect_node w emitted (now node_id) node_id in
      inspect_nodes w' emitted' (findings ++ found_by outcome) now rest

  unfoldable pub run_numeric_instability_detection :
      World F → List StepKey → (String → ℕ) → List (Anomaly F) × World F × List StepKey
  unfolding inspect_nodes get_node_ids
  run_numeric_instability_detection w emitted now =
      inspect_nodes w emitted [] now (get_node_ids w.metrics)

  inspect-emitted :
      (w : World F) (emitted : List StepKey) (now : ℕ) (node_id : String)
      (latest : TrainingMetrics F) (bad : List String)
      → contains emitted (node_id, latest.step) ≡ true
      → inspect w emitted now node_id latest bad ≡ (quiet, w, emitted)
  unfolding inspect
  inspect-emitted w emitted now node_id latest [] h = refl
  inspect-emitted w emitted now node_id latest (b ∷ bad) h = rw h refl

  contains-evict_if_full :
      (k : StepKey) (emitted : List StepKey)
      → length emitted ≤ 4095
      → contains (evict_if_full popped (k ∷ emitted)) k ≡ true
  unfolding evict_if_full
  contains-evict_if_full k emitted h =
      let fits : ltb 4096 (length (k ∷ emitted)) ≡ false = ground arith in
      rw (fits, beq_refl {A = StepKey} k) refl

  metrics-inspect :
      (w : World F) (emitted : List StepKey) (now : ℕ) (node_id : String)
      (latest : TrainingMetrics F) (bad : List String)
      → (inspect w emitted now node_id latest bad).1.metrics ≡ w.metrics
  unfolding inspect emit
  metrics-inspect w emitted now node_id latest [] = refl
  metrics-inspect w emitted now node_id latest (b ∷ bad) =
      elim (Bool-cases (contains emitted (node_id, latest.step))) [
        | inl known ↦ rw known refl
        | inr new ↦ rw new refl
      ]

  -- A second look at the same sample.
  inspect_again :
      (w : World F) (emitted : List StepKey) (now later : ℕ) (node_id : String)
      (latest : TrainingMetrics F) (bad : List String)
      → length emitted ≤ 4095
      → inspect
          (inspect w emitted now node_id latest bad).1
          (inspect w emitted now node_id latest bad).2
          later
          node_id
          latest
          bad
        ≡ (
          quiet,
          (inspect w emitted now node_id latest bad).1,
          (inspect w emitted now node_id latest bad).2,
        )
  unfolding inspect
  inspect_again w emitted now later node_id latest [] h = refl
  inspect_again w emitted now later node_id latest (b ∷ bad) h =
      elim (Bool-cases (contains emitted (node_id, latest.step))) [
        | inl known ↦ rw known (rw known refl)
        | inr new ↦ rw new (
            inspect-emitted _ (evict_if_full popped ((node_id, latest.step) ∷ emitted)) later
              node_id latest (b ∷ bad) (contains-evict_if_full (node_id, latest.step) emitted h))
      ]

  inspect_node-none :
      (w : World F) (emitted : List StepKey) (now : ℕ) (node_id : String)
      → last? (get_training_history w.metrics node_id 1) ≡ none
      → inspect_node w emitted now node_id ≡ (quiet, w, emitted)
  unfolding inspect_node
  inspect_node-none w emitted now node_id e = rw (e, inspect_node) refl

  inspect_node-some :
      (w : World F) (emitted : List StepKey) (now : ℕ) (node_id : String)
      (latest : TrainingMetrics F)
      → last? (get_training_history w.metrics node_id 1) ≡ some latest
      → inspect_node w emitted now node_id
        ≡ inspect w emitted now node_id latest (bad_fields latest)
  unfolding inspect_node
  inspect_node-some w emitted now node_id latest e = rw (e, inspect_node) refl

  -- A sample that was reported is not reported again: once a node was inspected while the set of
  -- reported samples was not full, a second inspection, without new samples, is quiet and changes
  -- nothing.
  pub inspect_node_again :
      (w : World F) (emitted : List StepKey) (now later : ℕ) (node_id : String)
      → length emitted ≤ 4095
      → inspect_node
          (inspect_node w emitted now node_id).1
          (inspect_node w emitted now node_id).2
          later
          node_id
        ≡ (quiet, (inspect_node w emitted now node_id).1, (inspect_node w emitted now node_id).2)
  inspect_node_again w emitted now later node_id h =
      let Quiet : Outcome F × World F × List StepKey → Type 0 =
        λ r. inspect_node r.1 r.2 later node_id ≡ (quiet, r.1, r.2) in
      elim (Option-cases (last? (get_training_history w.metrics node_id 1))) [
        | inl e ↦
            subst Quiet (sym (inspect_node-none w emitted now node_id e))
              (inspect_node-none w emitted later node_id e)
        | inr (latest, e) ↦
            let bad = bad_fields latest in
            let kept = metrics-inspect w emitted now node_id latest bad in
            subst Quiet (sym (inspect_node-some w emitted now node_id latest e)) (
              inspect_node-some _ _ later node_id latest
                (ap (λ m. last? (get_training_history m node_id 1)) kept ∙ e)
              ∙ inspect_again w emitted now later node_id latest bad h)
      ]
