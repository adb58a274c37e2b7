-- ===== src/Application/Diagnoses.antt =====
-- `_auto_diagnosis_loop` of backend/app/main.py.
use solprobe.Prelude.{ℕ, String, Bool, true, false, none, some, List, [], ◌∷◌, if◌then◌else◌}
use solprobe.Prelude.Int.{pos, sub_ℕ, ltb_ℤ}
use solprobe.Prelude.Floats.{Floats}
use solprobe.Models.Alerts.{Alert}
use solprobe.Models.Diagnoses.{DiagnosisResult, completed, failed, rate_limited, cached}
use solprobe.Stores.Alerts.{query}
use solprobe.Stores.World.{World}
use solprobe.Diagnosis.Store.{is_usable, get_by_alert_id}
use solprobe.Diagnosis.Agent.Results.{Readings}
use solprobe.Diagnosis.Agent.Flow.{Agent, Tools, diagnose}

abbrev pub failed_retry_cooldown_ms : ℕ
failed_retry_cooldown_ms = 60000

-- Whether an alert with that diagnosis is passed over at the time `now_ms`.
abbrev pub settled : {F : Type 0} → ℕ → DiagnosisResult F → Bool
settled now_ms d = elim d.status [
  | completed ↦ true
  | cached ↦ true
  | rate_limited ↦ true
  | failed ↦ ltb_ℤ (sub_ℕ now_ms d.timestamp_ms) (pos failed_retry_cooldown_ms)
]

-- What a call of the agent takes from outside: the clock and a fresh identifier.
pub record Draw (F : Type 0) : Type 0 where
  pub times : Readings F
  pub diagnosis_id : String

-- A round ended, with the diagnoses that were broadcast, or it raised after them.
pub record Round (fl : Floats) : Type 0 where
  pub raised : Bool
  pub broadcast : List (DiagnosisResult fl.F)
  pub agent : Agent fl

module _ (fl : Floats) (tools : Tools fl) where
  open fl use {F}

  unfoldable pub skips : Agent fl → ℕ → Alert F → Bool
  unfolding get_by_alert_id
  skips agent now_ms alert = elim (get_by_alert_id agent.store alert.alert_id) [
    | none ↦ false
    | some d ↦ settled now_ms d
  ]

  abbrev pub announced : DiagnosisResult F → List (DiagnosisResult F) → List (DiagnosisResult F)
  announced d rest = if is_usable d.status then d ∷ rest else rest

  -- The loop over the alerts; each comes with its draw.
  unfoldable pub diagnose_all :
      World F → ℕ → (String → Draw F) → Agent fl → List (Alert F) → Round fl
  unfolding skips diagnose is_usable
  diagnose_all w now_ms draw agent [] = record { raised = false; broadcast = []; agent = agent }
  diagnose_all w now_ms draw agent (a ∷ rest) =
      let passed_over = diagnose_all w now_ms draw agent rest in
      let (result, after) =
        diagnose fl tools agent w (draw a.alert_id).times (draw a.alert_id).diagnosis_id a false in
      let later = diagnose_all w now_ms draw after rest in
      if skips agent now_ms a then passed_over else elim result [
        | none ↦ record { raised = true; broadcast = []; agent = after }
        | some d ↦ record later { broadcast = announced d later.broadcast }
      ]

  -- A round of the loop.
  unfoldable pub auto_diagnosis_round : World F → ℕ → (String → Draw F) → Agent fl → Round fl
  unfolding query diagnose_all
  auto_diagnosis_round w now_ms draw agent =
      diagnose_all w now_ms draw agent (query w.alert_log none (some "CRITICAL") none 20)
