-- ===== src/Diagnosis/Agent/Fallback.antt =====
-- backend/app/diagnosis/agent.py: the diagnoses by rule, for when the model cannot be asked.
use solprobe.Prelude.{
  String, ◌<>◌, true, Option, none, some, List, [], ◌∷◌, ◌++◌, if◌then◌else◌, ◌==◌, string_eq,
  contains,
}
use solprobe.Prelude.Int.{pos, sub_ℕ}
use solprobe.Prelude.Floats.{Floats}
use solprobe.Prelude.Dict.{Dict, get}
use solprobe.Models.Json.{flag, number, text}
use solprobe.Models.Alerts.{Alert}
use solprobe.Models.Diagnoses.{
  DiagnosisResult, RecommendedAction, EvidenceItem, Status, completed, Urgency, immediate, soon,
  monitor,
}
use solprobe.Diagnosis.Agent.Results.{Readings, validated, make_failed_result}

abbrev pub fallback_types : List String
fallback_types =
    "gradient_explosion" ∷ "loss_spike" ∷ "straggler_detected" ∷ "numeric_instability"
    ∷ "training_stalled" ∷ "loss_plateau" ∷ "throughput_regression" ∷ "policy_violation" ∷ []

-- The item for a key of the evidence, if it is there.
abbrev item_for : Dict String String → String → String → List EvidenceItem
item_for evidence key context = elim (get key evidence) [
  | none ↦ []
  | some v ↦ record { metric = key; value = v; context = context } ∷ []
]

-- evidence.get(key, default)
abbrev get_or : Dict String String → String → String → String
get_or evidence key default = elim (get key evidence) [ none ↦ default | some v ↦ v ]

abbrev items : Dict String String → List EvidenceItem
items evidence =
    item_for evidence "detector" "detector that raised this alert"
    ++ item_for evidence "gradient_norm"
        ("exceeds configured threshold " <> get_or evidence "threshold" "configured threshold")
    ++ item_for evidence "loss" "loss spike reported by the training callback"
    ++ item_for evidence "step" "training step where the instability was observed"
    ++ item_for evidence "z_score" "statistical deviation reported by the central detector"
    ++ item_for evidence "field" "metric that triggered the anomaly detector"

unfoldable pub fallback_evidence : Dict String String → String → List EvidenceItem
unfolding get
fallback_evidence evidence description = elim (items evidence) [
  | [] ↦
      record {
        metric = "alert";
        value = description;
        context = "edge detector reported training instability";
      }
      ∷ []
  | x ∷ xs ↦ x ∷ xs
]

-- "soon" if severity == "WARNING" else "immediate"
abbrev by_severity : String → Urgency
by_severity severity = if severity == "WARNING" then soon else immediate

abbrev gradient_explosion_reasoning : String
gradient_explosion_reasoning =
    "The edge sidecar observed a gradient norm above the configured critical "
    <> "threshold during training. That is consistent with numerical instability, "
    <> "an overly aggressive learning rate, or a corrupted batch. Claude diagnosis "
    <> "was unavailable, so this local fallback recommends reducing the learning "
    <> "rate and inspecting the triggering batch/checkpoint before continuing."

abbrev loss_spike_reasoning : String
loss_spike_reasoning =
    "The training callback reported a loss spike. Without an LLM response, the "
    <> "local fallback treats this as a likely bad batch or corrupted data shard and "
    <> "recommends skipping or inspecting the current shard before resuming."

abbrev throughput_regression_reasoning : String
throughput_regression_reasoning =
    "The central detector observed a statistically significant throughput drop "
    <> "for this training node. That is consistent with an overloaded host, thermal "
    <> "or memory pressure, checkpoint/sample overhead, or another process competing "
    <> "for GPU resources. Claude diagnosis was unavailable, so this local fallback "
    <> "recommends checking node load, recent training events, and GPU utilization "
    <> "around the alert timestamp before rebalancing work."

abbrev numeric_instability_reasoning : String
numeric_instability_reasoning =
    "A training metric became NaN or infinite. That usually points to "
    <> "numerical instability from learning rate, bad input data, mixed "
    <> "precision overflow, or an unstable optimizer state. Claude diagnosis "
    <> "was unavailable, so this local fallback recommends reducing the "
    <> "learning rate and inspecting the latest batch and checkpoint."

abbrev training_stalled_reasoning : String
training_stalled_reasoning =
    "Training progress stopped while the node was still reporting metrics. "
    <> "That is consistent with a blocked dataloader, checkpoint save, deadlock, "
    <> "or training process hang. Claude diagnosis was unavailable, so this "
    <> "local fallback recommends checking the training logs, dataloader, and "
    <> "latest checkpoint operation before resuming."

abbrev loss_plateau_reasoning : String
loss_plateau_reasoning =
    "Loss flattened while throughput remained healthy. That is consistent "
    <> "with an exhausted learning-rate schedule, data distribution issue, "
    <> "under-capacity model, or optimization plateau. Claude diagnosis was "
    <> "unavailable, so this local fallback recommends checking learning-rate "
    <> "schedule, batch composition, and validation behavior."

abbrev policy_violation_reasoning : String
policy_violation_reasoning =
    "A user-defined monitoring policy fired. Claude diagnosis was unavailable, "
    <> "so this local fallback recommends inspecting the policy threshold, the "
    <> "actual metric value, and whether the policy is scoped to the intended "
    <> "node or job before taking remediation."

-- The parts of a diagnosis by rule that depend on the type of the alert.
pub record Rule (F : Type 0) : Type 0 where
  pub root_cause : String
  pub action : RecommendedAction F
  pub reasoning : String
  pub confidence : F

module _ (fl : Floats) where
  open fl use {F, literal}

  unfoldable pub rule_for : Alert F → Rule F
  unfolding get
  rule_for alert =
      if alert.alert_type == "gradient_explosion"
      then record {
        root_cause = "gradient_instability";
        action = record {
          action = "rollback_lr";
          params = ("factor", number (literal (pos 1) 1)) ∷ [];
          urgency = by_severity alert.severity;
        };
        reasoning = gradient_explosion_reasoning;
        confidence = literal (pos 78) 2;
      }
      else if alert.alert_type == "loss_spike"
      then record {
        root_cause = "data_corruption";
        action = record { action = "skip_corrupted_shard"; params = []; urgency = soon };
        reasoning = loss_spike_reasoning;
        confidence = literal (pos 7) 1;
      }
      else if contains ("straggler_detected" ∷ "throughput_regression" ∷ []) alert.alert_type
      then record {
        root_cause = "throughput_regression";
        action = record {
          action = "inspect_node_throughput";
          params = ("node_id", text alert.node_id) ∷ [];
          urgency = by_severity alert.severity;
        };
        reasoning = throughput_regression_reasoning;
        confidence = literal (pos 72) 2;
      }
      else if alert.alert_type == "numeric_instability"
      then record {
        root_cause = "numeric_instability";
        action = record {
          action = "rollback_lr";
          params =
              ("factor", number (literal (pos 5) 1))
              ∷ ("inspect_non_finite_metric", flag true)
              ∷ [];
          urgency = immediate;
        };
        reasoning = numeric_instability_reasoning;
        confidence = literal (pos 76) 2;
      }
      else if alert.alert_type == "training_stalled"
      then record {
        root_cause = "training_stalled";
        action = record {
          action = "inspect_training_loop";
          params = ("node_id", text alert.node_id) ∷ [];
          urgency = by_severity alert.severity;
        };
        reasoning = training_stalled_reasoning;
        confidence = literal (pos 74) 2;
      }
      else if alert.alert_type == "loss_plateau"
      then record {
        root_cause = "loss_plateau";
        action = record {
          action = "inspect_learning_dynamics";
          params = ("check_lr_schedule", flag true) ∷ ("check_data_mix", flag true) ∷ [];
          urgency = monitor;
        };
        reasoning = loss_plateau_reasoning;
        confidence = literal (pos 68) 2;
      }
      else record {
        root_cause = "policy_violation";
        action = record {
          action = "inspect_policy_trigger";
          params =
              ("policy_id", text (get_or alert.evidence "policy_id" ""))
              ∷ ("field", text (get_or alert.evidence "field" ""))
              ∷ [];
          urgency = by_severity alert.severity;
        };
        reasoning = policy_violation_reasoning;
        confidence = literal (pos 66) 2;
      }

  unfoldable pub fallback_result : Readings F → String → Alert F → DiagnosisResult F
  unfolding rule_for fallback_evidence
  fallback_result times diagnosis_id alert =
      let rule = rule_for alert in
      record {
        diagnosis_id = diagnosis_id;
        alert_id = alert.alert_id;
        alert_type = alert.alert_type;
        node_id = alert.node_id;
        timestamp_ms = times.stamp_ms;
        root_cause = rule.root_cause;
        confidence = rule.confidence;
        reasoning = rule.reasoning;
        evidence_chain = fallback_evidence alert.evidence alert.description;
        recommended_action = rule.action;
        similar_incidents = [];
        llm_model = "local-fallback";
        latency_ms = sub_ℕ times.end_ms times.start_ms;
        status = completed;
        error = none;
        cached_from = none;
      }

  -- `_make_llm_unavailable_result`, with `_make_local_fallback_result`; `none` is an exception.
  unfoldable pub make_llm_unavailable_result :
      String → Readings F → String → Alert F → Status → String → Option (DiagnosisResult F)
  unfolding fallback_result validated make_failed_result
  make_llm_unavailable_result model times diagnosis_id alert status error =
      if contains fallback_types alert.alert_type
      then validated fl (fallback_result times diagnosis_id alert)
      else make_failed_result fl model times diagnosis_id alert status error
