-- ===== src/Models/Diagnoses.antt =====
-- backend/app/diagnosis/models.py, over a type `F` of floating point numbers.
use solprobe.Prelude.{
  ℕ, String, Bool, false, not, Option, none, some, List, ◌==◌, ◌&&◌, string_eq, is_some,
}
use solprobe.Prelude.Int.{ℤ}
use solprobe.Prelude.Dict.{Dict}
use solprobe.Models.Json.{Json}

pub data Status : Type 0 where
  completed failed rate_limited cached : Status

pub data Urgency : Type 0 where
  immediate soon monitor : Urgency

pub record EvidenceItem : Type 0 where
  pub metric : String
  pub value : String
  pub context : String

pub record SimilarIncident (F : Type 0) : Type 0 where
  pub diagnosis_id : String
  pub root_cause : String
  pub similarity : F

pub record RecommendedAction (F : Type 0) : Type 0 where
  pub action : String
  pub params : Dict String (Json F)
  pub urgency : Urgency

pub record DiagnosisResult (F : Type 0) : Type 0 where
  pub diagnosis_id : String
  pub alert_id : String
  pub alert_type : String
  pub node_id : String
  pub timestamp_ms : ℕ
  pub root_cause : String
  pub confidence : F
  pub reasoning : String
  pub evidence_chain : List EvidenceItem
  pub recommended_action : RecommendedAction F
  pub similar_incidents : List (SimilarIncident F)
  pub llm_model : String
  pub latency_ms : ℤ
  pub status : Status
  pub error : Option String
  pub cached_from : Option String

-- `_check_status_error_consistency`; an empty text counts as no text.
abbrev pub given : Option String → Bool
given none = false
given (some t) = not (t == "")

abbrev consistent : Status → Option String → Option String → Bool
consistent completed error cached_from = not (is_some error)
consistent failed error cached_from = given error
consistent rate_limited error cached_from = given error
consistent cached error cached_from = not (is_some error) && given cached_from

unfoldable pub check_status_error_consistency : {F : Type 0} → DiagnosisResult F → Bool
check_status_error_consistency d = consistent d.status d.error d.cached_from
