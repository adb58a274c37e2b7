-- ===== src/Diagnosis/Agent/Catalog.antt =====
-- The actions of the diagnoses by rule of backend/app/diagnosis/agent.py, and the catalog of
-- backend/app/diagnosis/actions.py.
use solprobe.Prelude.{◌≡◌, refl, [], ◌∷◌, ◌==◌, string_eq, contains, eq_iff, Bool-cases, inl, inr}
use solprobe.Prelude.Floats.{Floats}
use solprobe.Models.Alerts.{Alert}
use solprobe.Diagnosis.Actions.{valid_action_ids}
use solprobe.Diagnosis.Agent.Fallback.{rule_for}

-- A diagnosis by rule recommends an action of the catalog exactly for exploding gradients, loss spikes
-- and metrics that are not finite.
pub contains-rule_for :
    (fl : Floats) (alert : Alert fl.F)
    → contains valid_action_ids (rule_for fl alert).action.action
      ≡ contains ("gradient_explosion" ∷ "loss_spike" ∷ "numeric_instability" ∷ []) alert.alert_type
unfolding rule_for
contains-rule_for fl alert = elim (Bool-cases (alert.alert_type == "gradient_explosion")) [
  | inl t ↦ rw ((eq_iff alert.alert_type "gradient_explosion").0 t) refl
  | inr a ↦ elim (Bool-cases (alert.alert_type == "loss_spike")) [
    | inl t ↦ rw ((eq_iff alert.alert_type "loss_spike").0 t) refl
    | inr b ↦ elim (Bool-cases (alert.alert_type == "straggler_detected")) [
      | inl t ↦ rw ((eq_iff alert.alert_type "straggler_detected").0 t) refl
      | inr c ↦ elim (Bool-cases (alert.alert_type == "throughput_regression")) [
        | inl t ↦ rw ((eq_iff alert.alert_type "throughput_regression").0 t) refl
        | inr d ↦ elim (Bool-cases (alert.alert_type == "numeric_instability")) [
          | inl t ↦ rw ((eq_iff alert.alert_type "numeric_instability").0 t) refl
          | inr e ↦ elim (Bool-cases (alert.alert_type == "training_stalled")) [
            | inl t ↦ rw ((eq_iff alert.alert_type "training_stalled").0 t) refl
            | inr f ↦ elim (Bool-cases (alert.alert_type == "loss_plateau")) [
              | inl t ↦ rw ((eq_iff alert.alert_type "loss_plateau").0 t) refl
              | inr g ↦ rw (a, b, c, d, e, f, g) refl
            ]
          ]
        ]
      ]
    ]
  ]
]
