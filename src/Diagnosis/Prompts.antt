-- ===== src/Diagnosis/Prompts.antt =====
-- `build_user_message` of backend/app/diagnosis/prompts.py. The texts that `json.dumps` and the
-- formatting of a number give are parameters.
use solprobe.Prelude.{
  ℕ, ◌/◌, String, ◌<>◌, List, [], ◌∷◌, ◌++◌, map, if◌then◌else◌, ltb, length, take,
}
use solprobe.Models.Alerts.{Alert}
use solprobe.Models.Diagnoses.{DiagnosisResult}
use solprobe.Prelude.Dict.{Dict}
use solprobe.Stores.Metrics.{stride}
use solprobe.Enrichment.{Dump, EnrichedAlert}
use solprobe.Detectors.Instability.{join}

-- A text, or the name of the exception that was raised instead.
pub data Encoded {ℓ} (A : Type ℓ) : Type ℓ where
  encoded : A → Encoded A
  refused : String → Encoded A

pub record Writers (F : Type 0) : Type 0 where
  pub dumps_evidence : Dict String String → Encoded String
  pub dumps_metric : Dump F → Encoded String
  -- f"{x}" of a float and of an int
  pub show_float : F → String
  pub show_nat : ℕ → String

module _ {F : Type 0} (writers : Writers F) where
  open writers use {dumps_evidence, dumps_metric, show_float, show_nat}

  -- More than twenty metrics are thinned out to twenty.
  unfoldable pub sampled : List (Dump F) → List (Dump F)
  unfolding stride
  sampled metrics =
      if ltb 20 (length metrics) then take 20 (stride (length metrics / 20) 0 metrics) else metrics

  unfoldable pub metric_lines : List (Dump F) → Encoded (List String)
  metric_lines [] = encoded []
  metric_lines (m ∷ ms) = elim (dumps_metric m) [
    | refused name ↦ refused name
    | encoded line ↦ elim (metric_lines ms) [
      | refused name ↦ refused name
      | encoded lines ↦ encoded (("  " <> line) ∷ lines)
    ]
  ]

  abbrev evidence_lines : Dict String String → Encoded (List String)
  evidence_lines [] = encoded []
  evidence_lines (e ∷ es) = elim (dumps_evidence (e ∷ es)) [
    | refused name ↦ refused name
    | encoded line ↦ encoded (("- Evidence: " <> line) ∷ [])
  ]

  unfoldable pub metrics_section : List (Dump F) → Encoded (List String)
  unfolding sampled metric_lines
  metrics_section [] = encoded []
  metrics_section (m ∷ ms) = elim (metric_lines (sampled (m ∷ ms))) [
    | refused name ↦ refused name
    | encoded lines ↦ encoded ("\n## Recent Metrics (±2 minute window)" ∷ lines)
  ]

  abbrev alert_lines : Alert F → List String
  alert_lines a =
      "## Triggering Alert"
      ∷ ("- Alert ID: " <> a.alert_id)
      ∷ ("- Node: " <> a.node_id)
      ∷ ("- Type: " <> a.alert_type)
      ∷ ("- Severity: " <> a.severity)
      ∷ ("- Source: " <> a.source)
      ∷ ("- Description: " <> a.description)
      ∷ ("- Confidence: " <> show_float a.confidence)
      ∷ []

  -- A section has its title only if it has a line.
  abbrev section : String → List String → List String
  section title [] = []
  section title (line ∷ lines) = title ∷ line ∷ lines

  abbrev history_line : Alert F → String
  history_line h =
      "  - ["
      <> h.severity
      <> "] "
      <> h.alert_type
      <> ": "
      <> h.description
      <> " (ts="
      <> show_nat h.timestamp_ms
      <> ")"

  abbrev event_line : Alert F → String
  event_line e =
      "  - Node " <> e.node_id <> " [" <> e.severity <> "] " <> e.alert_type <> ": "
      <> e.description

  abbrev diagnosis_line : DiagnosisResult F → String
  diagnosis_line d =
      "  - Diagnosis "
      <> d.diagnosis_id
      <> ": root_cause="
      <> d.root_cause
      <> ", confidence="
      <> show_float d.confidence
      <> ", action="
      <> d.recommended_action.action

  unfoldable pub build_user_message : EnrichedAlert F → List (DiagnosisResult F) → Encoded String
  unfolding metrics_section join
  build_user_message enriched similar = elim (evidence_lines enriched.alert.evidence) [
    | refused name ↦ refused name
    | encoded evidence ↦ elim (metrics_section enriched.recent_metrics) [
      | refused name ↦ refused name
      | encoded metrics ↦ encoded (
          join "\n" (
            alert_lines enriched.alert
            ++ (evidence
                ++ (metrics
                    ++ (section "\n## Node Alert History (last 10)"
                          (map history_line enriched.node_history)
                        ++ (section "\n## Correlated Events (±30s from other nodes)"
                              (map event_line enriched.correlated_events)
                            ++ section "\n## Similar Past Diagnoses"
                                (map diagnosis_line similar)))))))
    ]
  ]
