-- ===== src/Diagnosis/Agent/Results.antt =====
-- backend/app/diagnosis/agent.py: the checks on a result, the failed result and the clone of an
-- earlier one. The readings of the clock are arguments.
use solprobe.Prelude.{ℕ, String, Bool, ◌&&◌, Option, none, some, [], if◌then◌else◌}
use solprobe.Prelude.Int.{pos, sub_ℕ}
use solprobe.Prelude.Floats.{Floats}
use solprobe.Models.Alerts.{Alert}
use solprobe.Models.Diagnoses.{
  DiagnosisResult, Status, cached, monitor, check_status_error_consistency,
}

-- The readings of the clock in one call, in milliseconds: at its start, by the search for an earlier
-- diagnosis, by the parser, for the time stamp of the result and for its latency. `monotonic` is the
-- monotonic clock of the rate limiter.
pub record Readings (F : Type 0) : Type 0 where
  pub start_ms : ℕ
  pub lookup_ms : ℕ
  pub parsed_ms : ℕ
  pub stamp_ms : ℕ
  pub end_ms : ℕ
  pub monotonic : F

module _ (fl : Floats) where
  open fl use {F, le, of_int, literal}

  -- The checks of `DiagnosisResult`, as a test.
  unfoldable pub is_acceptable : DiagnosisResult F → Bool
  is_acceptable d =
      le (literal (pos 0) 1) d.confidence
      && le d.confidence (literal (pos 10) 1)
      && check_status_error_consistency d

  -- The construction of a `DiagnosisResult`; `none` is pydantic's exception.
  unfoldable pub validated : DiagnosisResult F → Option (DiagnosisResult F)
  unfolding is_acceptable
  validated d = if is_acceptable d then some d else none

  unfoldable pub failed_result :
      String → Readings F → String → Alert F → Status → String → DiagnosisResult F
  failed_result model times diagnosis_id alert status error = record {
    diagnosis_id = diagnosis_id;
    alert_id = alert.alert_id;
    alert_type = alert.alert_type;
    node_id = alert.node_id;
    timestamp_ms = times.stamp_ms;
    root_cause = "unknown";
    confidence = literal (pos 0) 1;
    reasoning = "";
    evidence_chain = [];
    recommended_action = record { action = "reassign_workload"; params = []; urgency = monitor };
    similar_incidents = [];
    llm_model = model;
    latency_ms = sub_ℕ times.end_ms times.start_ms;
    status = status;
    error = some error;
    cached_from = none;
  }

  -- `_make_failed_result`
  unfoldable pub make_failed_result :
      String → Readings F → String → Alert F → Status → String → Option (DiagnosisResult F)
  unfolding failed_result validated
  make_failed_result model times diagnosis_id alert status error =
      validated (failed_result model times diagnosis_id alert status error)

  -- The result that `diagnose` makes of an earlier one.
  unfoldable pub clone : Readings F → String → Alert F → DiagnosisResult F → DiagnosisResult F
  clone times diagnosis_id alert d = record d {
    diagnosis_id = diagnosis_id;
    alert_id = alert.alert_id;
    node_id = alert.node_id;
    timestamp_ms = times.stamp_ms;
    latency_ms = sub_ℕ times.end_ms times.start_ms;
    status = cached;
    error = none;
    cached_from = some d.diagnosis_id;
  }
