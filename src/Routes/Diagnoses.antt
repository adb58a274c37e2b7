-- ===== src/Routes/Diagnoses.antt =====
-- The diagnosis endpoints of backend/app/api/routes.py.
use solprobe.Prelude.{ℕ, String, true, Option, none, some, List, if◌then◌else◌}
use solprobe.Prelude.Floats.{Floats}
use solprobe.Models.Diagnoses.{DiagnosisResult}
use solprobe.Stores.World.{World}
use solprobe.Diagnosis.Store.{is_usable, get_by_id, get_by_alert_id, query}
use solprobe.Diagnosis.Agent.Results.{Readings}
use solprobe.Diagnosis.Agent.Flow.{Agent, Tools, diagnose}
use solprobe.Routes.{Http, replied, rejected, in_range}
use solprobe.Routes.Alerts.{find_alert}

-- An exception of the handler itself is a 500.
abbrev pub internal_error : ℕ
internal_error = 500

module _ (fl : Floats) (tools : Tools fl) where
  open fl use {F}

  unfoldable pub list_diagnoses :
      Agent fl → Option String → Option String → ℕ → Http (List (DiagnosisResult F))
  unfolding query
  list_diagnoses agent node_id root_cause limit =
      if in_range 1 500 limit
      then replied 200 (query agent.store node_id root_cause limit)
      else rejected 422

  abbrev found_or_404 : Option (DiagnosisResult F) → Http (DiagnosisResult F)
  found_or_404 none = rejected 404
  found_or_404 (some d) = replied 200 d

  unfoldable pub get_diagnosis : Agent fl → String → Http (DiagnosisResult F)
  unfolding get_by_id
  get_diagnosis agent diagnosis_id = found_or_404 (get_by_id agent.store diagnosis_id)

  unfoldable pub get_alert_diagnosis : Agent fl → String → Http (DiagnosisResult F)
  unfolding get_by_alert_id
  get_alert_diagnosis agent alert_id = found_or_404 (get_by_alert_id agent.store alert_id)

  abbrev answer : Option (DiagnosisResult F) × Agent fl → Http (DiagnosisResult F) × Agent fl
  answer (none, agent) = (rejected internal_error, agent)
  answer (some d, agent) = (replied (if is_usable d.status then 201 else 502) d, agent)

  unfoldable pub create_diagnosis :
      Agent fl → World F → Readings F → String → String → Http (DiagnosisResult F) × Agent fl
  unfolding find_alert diagnose is_usable
  create_diagnosis agent w times diagnosis_id alert_id = elim (find_alert w alert_id) [
    | none ↦ (rejected 404, agent)
    | some a ↦ answer (diagnose fl tools agent w times diagnosis_id a true)
  ]
