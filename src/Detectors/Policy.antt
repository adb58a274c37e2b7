-- ===== src/Detectors/Policy.antt =====
-- backend/app/detectors/policy_evaluator.py: the evaluation of the monitoring policies.
pub mod Readers
pub mod Conditions
pub mod Runs
pub mod Firing
pub mod Logs
use solprobe.Prelude.{
  ℕ, ◌+◌, max, String, ◌<>◌, Bool, true, false, Option, none, some, List, [], ◌∷◌, ◌++◌,
  if◌then◌else◌, ◌==◌, string_eq, option_eq, filter_by, last?, option_beq,
}
use solprobe.Prelude.Int.{pos, pos_part}
use solprobe.Prelude.Floats.{Floats}
use solprobe.Prelude.Dict.{Dict}
use solprobe.Models.Alerts.{Alert, Anomaly}
use solprobe.Models.Policies.{
  Policy, Operator, stale_for, Source, source_name, operator_name, severity_name,
}
use solprobe.Stores.Metrics.{get_node_ids}
use solprobe.Stores.Policies.{in_cooldown, mark_triggered, list_enabled}
use solprobe.Stores.World.{World, Env, emit}
use Readers.{Sample, read_source}
use Conditions.{Verdict, sustained_violation, stale_run}

abbrev pub default_window_minutes : ℕ
default_window_minutes = 5

-- The texts of `description or name or policy_id` and `scope_node_id`.
unfoldable pub title : String → String → String → String
title description name policy_id =
    if description == "" then (if name == "" then policy_id else name) else description

-- What the evaluation of a policy on one node comes to: nothing, an exception, or a finding.
pub data Outcome (F : Type 0) : Type 0 where
  quiet : Outcome F
  raised : Outcome F
  fired : Anomaly F → Outcome F

module _ (env : Env) where
  open env use {floats, uuid}
  open floats use {F, div, of_int, to_int, format, le}

  -- Samples of the scoped job, or all.
  unfoldable pub scope_samples : Option String → List (Sample F) → List (Sample F)
  scope_samples none samples = samples
  scope_samples (some job) samples = filter_by (λ s. option_beq (some job) s.job_id) samples

  unfoldable pub judge : Policy F → List (Sample F) → Verdict F
  judge p samples = elim p.condition.operator [
    | stale_for ↦ stale_run floats samples p.condition.for_seconds
    | op ↦
        sustained_violation floats samples p.condition.operator p.condition.threshold
          p.condition.for_seconds
  ]

  -- the text of an operator, a threshold and so on in the evidence of a violation
  unfoldable pub evidence : Policy F → Verdict F → Dict String String
  unfolding source_name operator_name
  evidence p v =
      ("policy_id", p.policy_id)
      ∷ ("field", source_name p.metric.source <> "." <> p.metric.field)
      ∷ ("operator", operator_name p.condition.operator)
      ∷ ("threshold", format ".6g" p.condition.threshold)
      ∷ ("actual_value", format ".6g" v.latest_value)
      ∷ ("duration_seconds", format ".2f" v.duration_seconds)
      ∷ ("for_seconds", format ".2f" p.condition.for_seconds)
      ∷ []

  unfoldable pub violation_alert :
      String → Policy F → ℕ → String → Verdict F → Option String → Alert F
  unfolding evidence title severity_name
  violation_alert id p now node_id v sample_job = record {
    alert_id = id;
    node_id = node_id;
    timestamp_ms = now;
    severity = severity_name p.severity;
    source = "CENTRAL";
    alert_type = "policy_violation";
    description = title p.description p.name p.policy_id <> " (node=" <> node_id <> ")";
    confidence = of_int (pos 1);
    evidence = evidence p v;
    gpu_index = none;
    job_id = sample_job;
  }

  -- the job of the newest sample
  unfoldable pub sample_job_id : List (Sample F) → Option String
  sample_job_id samples = elim (last? samples) [ none ↦ none | some s ↦ s.job_id ]

  -- `scope_job_id if scope_job_id is not None else sample_job_id`
  unfoldable pub cooldown_job : Policy F → List (Sample F) → Option String
  unfolding sample_job_id
  cooldown_job p samples = elim p.scope.job_id [ none ↦ sample_job_id samples | some j ↦ some j ]

  -- the end of the loop body, once the violation is to be reported
  unfoldable pub fire :
      World F → Policy F → ℕ → ℕ → String → Verdict F → List (Sample F) → Outcome F × World F
  fire w p now window_minutes node_id v samples =
      let finding : Anomaly F = record {
        alert = violation_alert (uuid w.issued) p now node_id v (sample_job_id samples);
        detector_name = "policy_evaluator";
        window_minutes = window_minutes;
        raw_score = v.duration_seconds;
      } in
      let marked : World F = record w {
        policy_book =
            mark_triggered w.policy_book p.policy_id (some node_id) (cooldown_job p samples) now;
      } in
      (fired finding, emit marked finding)

  -- the cooldown test and what follows it, for a violation
  unfoldable pub report :
      World F → Policy F → ℕ → ℕ → String → Verdict F → List (Sample F) → Outcome F × World F
  report w p now window_minutes node_id v samples =
      elim (in_cooldown floats w.policy_book p.policy_id (some node_id) (cooldown_job p samples)
        p.cooldown_seconds now) [
          | none ↦ (raised, w)
          | some cooling ↦
              if cooling then (quiet, w) else fire w p now window_minutes node_id v samples
        ]

  unfoldable pub evaluate_samples :
      World F → Policy F → ℕ → ℕ → String → List (Sample F) → Outcome F × World F
  unfolding report
  evaluate_samples w p now window_minutes node_id [] = (quiet, w)
  evaluate_samples w p now window_minutes node_id (s ∷ rest) =
      let v = judge p (s ∷ rest) in
      if v.violated then report w p now window_minutes node_id v (s ∷ rest) else (quiet, w)

  -- the samples that a policy reads on a node
  unfoldable pub policy_samples : World F → Policy F → ℕ → String → List (Sample F)
  unfolding scope_samples
  policy_samples w p window_minutes node_id =
      scope_samples p.scope.job_id
        (read_source floats w p.metric.source node_id p.metric.field window_minutes)

  -- The body of the loop over the nodes.
  unfoldable pub evaluate_node : World F → Policy F → ℕ → ℕ → String → Outcome F × World F
  unfolding evaluate_samples policy_samples
  evaluate_node w p now window_minutes node_id =
      evaluate_samples w p now window_minutes node_id (policy_samples w p window_minutes node_id)

  -- The loop over the nodes. An exception ends it: the findings so far are lost, and what was
  -- stored stays stored.
  unfoldable pub evaluate_nodes :
      World F
      → Policy F
      → ℕ
      → ℕ
      → List (Anomaly F)
      → List String
      → Option (List (Anomaly F)) × World F
  unfolding evaluate_node
  evaluate_nodes w p now window_minutes findings [] = (some findings, w)
  evaluate_nodes w p now window_minutes findings (node_id ∷ rest) =
      let (outcome, w') = evaluate_node w p now window_minutes node_id in
      elim outcome [
        | quiet ↦ evaluate_nodes w' p now window_minutes findings rest
        | raised ↦ (none, w')
        | fired a ↦ evaluate_nodes w' p now window_minutes (findings ++ a ∷ []) rest
      ]

  -- `_candidate_node_ids`
  unfoldable pub candidate_node_ids : World F → Option String → List String
  unfolding get_node_ids
  candidate_node_ids w none = get_node_ids w.metrics
  candidate_node_ids w (some node_id) = node_id ∷ []

  -- `max(_DEFAULT_WINDOW_MINUTES, int(for_seconds / 60) + 2)`; `none` is the exception of `int`.
  unfoldable pub window_of : F → Option ℕ
  window_of for_seconds = elim (to_int (div for_seconds (of_int (pos 60)))) [
    | none ↦ none
    | some m ↦ some (max default_window_minutes (pos_part m + 2))
  ]

  unfoldable pub evaluate_one : World F → Policy F → ℕ → Option (List (Anomaly F)) × World F
  unfolding evaluate_nodes candidate_node_ids window_of
  evaluate_one w p now = elim (window_of p.condition.for_seconds) [
    | none ↦ (none, w)
    | some window_minutes ↦
        evaluate_nodes w p now window_minutes [] (candidate_node_ids w p.scope.node_id)
  ]

  abbrev pub or_none : Option (List (Anomaly F)) → List (Anomaly F)
  or_none none = []
  or_none (some found) = found

  -- The loop over the policies; an exception in one is logged, and the next one follows.
  unfoldable pub evaluate_policies :
      World F → ℕ → List (Anomaly F) → List (Policy F) → List (Anomaly F) × World F
  unfolding evaluate_one
  evaluate_policies w now findings [] = (findings, w)
  evaluate_policies w now findings (p ∷ rest) =
      let (found, w') = evaluate_one w p now in
      evaluate_policies w' now (findings ++ or_none found) rest

  unfoldable pub run_policy_evaluation : World F → ℕ → List (Anomaly F) × World F
  unfolding evaluate_policies list_enabled
  run_policy_evaluation w now = evaluate_policies w now [] (list_enabled w.policy_book)
