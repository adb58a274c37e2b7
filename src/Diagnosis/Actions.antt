-- ===== src/Diagnosis/Actions.antt =====
-- backend/app/diagnosis/actions.py: the catalog of recovery actions and its text in the prompt.
use solprobe.Prelude.{String, ◌<>◌, List, [], ◌∷◌, ◌++◌, map, string_eq}
use solprobe.Detectors.Instability.{join}

pub record ActionDefinition : Type 0 where
  pub action_id : String
  pub display_name : String
  pub description : String
  pub parameter_schema : List (String × String)
  pub applicable_alert_types : List String
  pub default_urgency : String

abbrev pub actions : List ActionDefinition
actions =
    record {
      action_id = "restart_from_checkpoint";
      display_name = "Restart from Checkpoint";
      description = "Restart training from the last known-good checkpoint.";
      parameter_schema = ("checkpoint_id", "string (optional, defaults to latest)") ∷ [];
      applicable_alert_types =
          "gradient_explosion" ∷ "loss_spike" ∷ "inner_outer_divergence" ∷ "pseudo_grad_divergence"
          ∷ [];
      default_urgency = "immediate";
    }
    ∷ record {
      action_id = "reassign_workload";
      display_name = "Reassign Workload";
      description = "Move workload off the affected node to a healthy node.";
      parameter_schema = ("target_node", "string (optional)") ∷ [];
      applicable_alert_types =
          "thermal_throttle" ∷ "xid_error" ∷ "ecc_error" ∷ "memory_pressure" ∷ "straggler_detected"
          ∷ [];
      default_urgency = "immediate";
    }
    ∷ record {
      action_id = "reduce_batch_size";
      display_name = "Reduce Batch Size";
      description = "Reduce the per-GPU batch size to lower memory/thermal pressure.";
      parameter_schema = ("factor", "float (e.g. 0.5 for half)") ∷ [];
      applicable_alert_types = "memory_pressure" ∷ "thermal_throttle" ∷ [];
      default_urgency = "soon";
    }
    ∷ record {
      action_id = "exclude_node";
      display_name = "Exclude Node";
      description = "Remove the node from the training cluster entirely.";
      parameter_schema = ("node_id", "string") ∷ [];
      applicable_alert_types = "ecc_error" ∷ "xid_error" ∷ [];
      default_urgency = "immediate";
    }
    ∷ record {
      action_id = "skip_corrupted_shard";
      display_name = "Skip Corrupted Shard";
      description = "Skip the current data shard and advance to the next one.";
      parameter_schema = ("shard_id", "string (optional)") ∷ [];
      applicable_alert_types = "loss_spike" ∷ "gradient_explosion" ∷ [];
      default_urgency = "soon";
    }
    ∷ record {
      action_id = "increase_timeout";
      display_name = "Increase Timeout";
      description = "Increase NCCL/communication timeout to tolerate slow nodes.";
      parameter_schema = ("timeout_seconds", "int") ∷ [];
      applicable_alert_types = "nccl_timeout" ∷ "diloco_sync_drift" ∷ "straggler_detected" ∷ [];
      default_urgency = "soon";
    }
    ∷ record {
      action_id = "rollback_lr";
      display_name = "Rollback Learning Rate";
      description = "Reduce learning rate to stabilize training after instability.";
      parameter_schema = ("factor", "float (e.g. 0.1 for 10x reduction)") ∷ [];
      applicable_alert_types = "gradient_explosion" ∷ "loss_spike" ∷ "inner_outer_divergence" ∷ [];
      default_urgency = "soon";
    }
    ∷ []

-- `VALID_ACTION_IDS`
abbrev pub valid_action_ids : List String
valid_action_ids = map (λ (a : ActionDefinition). a.action_id) actions

abbrev parameters_line : List (String × String) → List String
parameters_line [] = []
parameters_line (p ∷ ps) =
    ("  Parameters: " <> join ", " (map (λ (q : String × String). q.0 <> ": " <> q.1) (p ∷ ps)))
    ∷ []

unfoldable pub action_lines : List ActionDefinition → List String
action_lines [] = []
action_lines (a ∷ rest) =
    (("\n- **" <> a.action_id <> "** (" <> a.display_name <> ")")
      ∷ ("  Description: " <> a.description)
      ∷ ("  Applicable to: " <> join ", " a.applicable_alert_types)
      ∷ ("  Default urgency: " <> a.default_urgency)
      ∷ parameters_line a.parameter_schema)
    ++ action_lines rest

unfoldable pub get_catalog_prompt_text : String
unfolding action_lines join
get_catalog_prompt_text = join "\n" ("Available recovery actions:" ∷ action_lines actions)
