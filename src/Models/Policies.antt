-- ===== src/Models/Policies.antt =====
-- backend/app/models/policies.py, over a type `F` of floating point numbers, and the check of a
-- policy's metric when a policy is created or patched.
use solprobe.Prelude.{ℕ, String, Bool, not, Option, none, some, List, [], ◌∷◌, string_eq, contains}

pub data Source : Type 0 where
  gpu training diloco custom : Source

pub data Operator : Type 0 where
  gt gte lt lte abs_gt stale_for : Operator

pub data Severity : Type 0 where
  info warning critical : Severity

-- The texts that the wire format and the evidence of an alert show.
unfoldable pub source_name : Source → String
source_name gpu = "gpu"
source_name training = "training"
source_name diloco = "diloco"
source_name custom = "custom"

unfoldable pub operator_name : Operator → String
operator_name gt = "gt"
operator_name gte = "gte"
operator_name lt = "lt"
operator_name lte = "lte"
operator_name abs_gt = "abs_gt"
operator_name stale_for = "stale_for"

unfoldable pub severity_name : Severity → String
severity_name info = "INFO"
severity_name warning = "WARNING"
severity_name critical = "CRITICAL"

pub record Scope : Type 0 where
  pub job_id : Option String
  pub node_id : Option String

pub record Metric : Type 0 where
  pub source : Source
  pub field : String

pub record Condition (F : Type 0) : Type 0 where
  pub operator : Operator
  pub threshold : F
  pub for_seconds : F

-- A stored policy, `MonitoringPolicy`.
pub record Policy (F : Type 0) : Type 0 where
  pub policy_id : String
  pub name : String
  pub enabled : Bool
  pub scope : Scope
  pub metric : Metric
  pub condition : Condition F
  pub severity : Severity
  pub cooldown_seconds : F
  pub description : String
  pub created_at_ms : ℕ
  pub updated_at_ms : ℕ
  pub last_triggered_at_ms : Option ℕ

pub record PolicyCreate (F : Type 0) : Type 0 where
  pub policy_id : String
  pub name : String
  pub enabled : Bool
  pub scope : Scope
  pub metric : Metric
  pub condition : Condition F
  pub severity : Severity
  pub cooldown_seconds : F
  pub description : String

-- `none` is a field that the body leaves out, or gives as null.
pub record PolicyUpdate (F : Type 0) : Type 0 where
  pub name : Option String
  pub enabled : Option Bool
  pub scope : Option Scope
  pub metric : Option Metric
  pub condition : Option (Condition F)
  pub severity : Option Severity
  pub cooldown_seconds : Option F
  pub description : Option String

-- `_SOURCE_FIELDS`: the fields of a model whose annotation is `int` or `float`.
unfoldable pub source_fields : Source → Option (List String)
source_fields gpu = some (
    "gpu_index" ∷ "timestamp_ms" ∷ "gpu_temp_c" ∷ "memory_temp_c" ∷ "gpu_utilization_pct"
    ∷ "mem_copy_utilization_pct" ∷ "fb_used_mb" ∷ "fb_free_mb" ∷ "power_usage_w" ∷ "xid_errors"
    ∷ "ecc_sbe_count" ∷ "ecc_dbe_count" ∷ "clock_throttle_reasons" ∷ "pcie_replay_counter"
    ∷ "pcie_tx_bytes_per_sec" ∷ "pcie_rx_bytes_per_sec" ∷ "sm_active_pct" ∷ "tensor_active_pct"
    ∷ "retired_pages_sbe" ∷ "retired_pages_dbe" ∷ "remapped_rows_correctable"
    ∷ "remapped_rows_uncorrectable" ∷ [])
source_fields training = some (
    "timestamp_ms" ∷ "step" ∷ "loss" ∷ "gradient_norm" ∷ "learning_rate" ∷ "throughput_tps"
    ∷ "mfu_pct" ∷ [])
source_fields diloco = some (
    "timestamp_ms" ∷ "inner_step" ∷ "outer_step" ∷ "inner_loss" ∷ "outer_loss" ∷ "pseudo_grad_norm"
    ∷ "sync_duration_ms" ∷ "worker_speed_ratio" ∷ [])
source_fields custom = none

-- `_check_field_known`: `blank` is `not field.strip()`; `false` is its `ValueError`.
unfoldable pub check_field_known : (String → Bool) → Metric → Bool
unfolding source_fields
check_field_known blank v = elim (source_fields v.source) [
  | none ↦ not (blank v.field)
  | some valid ↦ contains valid v.field
]
