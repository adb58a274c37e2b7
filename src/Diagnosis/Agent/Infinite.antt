-- ===== src/Diagnosis/Agent/Infinite.antt =====
-- The alert of backend/app/detectors/numeric_instability.py for an infinite loss, in `diagnose` of
-- backend/app/diagnosis/agent.py.
use solprobe.Prelude.{
  ℕ, ◌≡◌, refl, String, Bool, true, false, none, some, List, string_eq, contains,
}
use solprobe.Prelude.Int.{pos}
use solprobe.Prelude.Dict.{keys, get}
use solprobe.Models.Alerts.{Alert}
use solprobe.Models.Metrics.{TrainingMetrics, training_field}
use solprobe.Stores.World.{World, Env}
use solprobe.Detectors.Instability.{StepKey, bad_fields, instability_alert}
use solprobe.Diagnosis.Fingerprint.{
  infinite, magnitude_bucket, evidence_part, value_at, alert_fingerprint,
}
use solprobe.Diagnosis.Fingerprint.Overflow.{alert_fingerprint-overflow}
use solprobe.Diagnosis.Agent.Results.{Readings}
use solprobe.Diagnosis.Agent.Flow.{Agent, Tools, diagnose}

module _ (env : Env) (popped : ℕ → List StepKey → List StepKey) (tools : Tools env.floats) where
  open env use {floats}
  open floats use {F, lt, abs, literal, is_finite, repr}
  open tools use {texts}

  abbrev pub alert_of : String → ℕ → String → TrainingMetrics F → Alert F
  alert_of alert_id now node_id latest = instability_alert env popped alert_id now node_id latest

  evidence_part-infinite :
      (x : F) (key : String)
      → texts.mentions_xid key ≡ false
      → texts.parse_float (repr x) ≡ some x
      → lt (abs x) (literal (pos 1) 6) ≡ false
      → texts.floor_log10 (abs x) ≡ infinite
      → evidence_part floats texts key (repr x) ≡ none
  unfolding evidence_part magnitude_bucket
  evidence_part-infinite x key no_xid parsed large over =
      rw (no_xid, parsed, evidence_part, large, over, magnitude_bucket) refl

  -- The alert that the detector raises for an infinite loss cannot be diagnosed: the call raises an
  -- exception, whatever the agent and its limiter hold, and changes nothing. It is supposed of the
  -- library that the text of the loss reads as the loss again, that an infinity is not below 0.000001,
  -- and that rounding its logarithm down overflows.
  pub diagnose-instability_alert :
      (agent : Agent floats) (w : World F) (times : Readings F) (diagnosis_id alert_id : String)
      (now : ℕ) (node_id : String) (latest : TrainingMetrics F) (bypass_rate_limit : Bool)
      → is_finite latest.loss ≡ false
      → texts.mentions_xid "value_loss" ≡ false
      → texts.parse_float (repr latest.loss) ≡ some latest.loss
      → lt (abs latest.loss) (literal (pos 1) 6) ≡ false
      → texts.floor_log10 (abs latest.loss) ≡ infinite
      → diagnose floats tools agent w times diagnosis_id
          (alert_of alert_id now node_id latest)
          bypass_rate_limit
        ≡ (none, agent)
  unfolding diagnose instability_alert bad_fields get training_field
  diagnose-instability_alert agent w times diagnosis_id alert_id now node_id latest bypass bad
        no_xid parsed large over =
      let alert = alert_of alert_id now node_id latest in
      let listed : contains (keys alert.evidence) "value_loss" ≡ true = rw bad refl in
      let there : value_at floats texts alert.evidence "value_loss" ≡ repr latest.loss =
        rw bad refl in
      let part = evidence_part-infinite latest.loss "value_loss" no_xid parsed large over in
      let raises : alert_fingerprint floats texts alert ≡ none =
        alert_fingerprint-overflow floats texts alert "value_loss" listed (rw there part) in
      rw (raises, diagnose) refl
