-- ===== src/Diagnosis/Agent/Recording.antt =====
-- What the agent of backend/app/diagnosis/agent.py keeps of the results that it returns.
use solprobe.Prelude.{
  ◌≡◌, refl, String, Bool, true, false, Option, none, some, List, [], ◌∷◌, Bool-cases, Option-cases,
  inl, inr, contains, string_eq,
}
use solprobe.Prelude.Floats.{Floats}
use solprobe.Prelude.Ring.{push}
use solprobe.Prelude.Dict.{Dict, get}
use solprobe.Models.Json.{Json}
use solprobe.Models.Alerts.{Alert}
use solprobe.Models.Diagnoses.{DiagnosisResult, Status, failed, rate_limited}
use solprobe.Stores.World.{World}
use solprobe.Diagnosis.Fingerprint.{alert_fingerprint}
use solprobe.Diagnosis.Store.{add, is_completed, index_fingerprint}
use solprobe.Diagnosis.Prompts.{Encoded, encoded, refused}
use solprobe.Diagnosis.Agent.Results.{
  Readings, is_acceptable, validated, failed_result, make_failed_result, clone,
}
use solprobe.Diagnosis.Agent.Fallback.{fallback_types, fallback_result, make_llm_unavailable_result}
use solprobe.Diagnosis.Agent.Parsing.{
  Response, tool_input, missing_fields, missing_action_fields, fields_of, completed_result,
  diagnosis_of, unless_missing, parse_action, parse_input, parse_response,
}
use solprobe.Diagnosis.Agent.Flow.{
  Agent, Tools, Reply, response, rate_limit_error, timeout_error, api_error, other_error, keep,
  finish, lookup, acquire, conclude, ask, consult, admitted, diagnose_marked, diagnose,
}

module _ (fl : Floats) (tools : Tools fl) (diagnosis_id : String) (alert : Alert fl.F) where
  open fl use {F}
  open tools use {reader}

  -- A result that passed the checks and carries the identifiers of the call, or an exception.
  abbrev pub Named : Option (DiagnosisResult F) → Type 0
  Named none = Unit
  Named (some d) =
      (is_acceptable fl d ≡ true)
      × (d.diagnosis_id ≡ diagnosis_id)
      × (d.alert_id ≡ alert.alert_id)
      × (d.node_id ≡ alert.node_id)

  -- A result is the newest entry of the store; an exception leaves the store.
  abbrev pub Recorded : Agent fl → Option (DiagnosisResult F) × Agent fl → Type 0
  Recorded agent (none, after) = after.store ≡ agent.store
  Recorded agent (some d, after) =
      Named (some d) × (after.store.diagnoses ≡ push agent.store.max_size agent.store.diagnoses d)

  validated-Named :
      (d : DiagnosisResult F)
      → d.diagnosis_id ≡ diagnosis_id
      → d.alert_id ≡ alert.alert_id
      → d.node_id ≡ alert.node_id
      → Named (validated fl d)
  unfolding validated
  validated-Named d same_id same_alert same_node = elim (Bool-cases (is_acceptable fl d)) [
    | inl good ↦ rw good (good, same_id, same_alert, same_node)
    | inr bad ↦ rw bad tt
  ]

  keep-Recorded :
      (agent : Agent fl) (o : Option (DiagnosisResult F))
      → Named o
      → Recorded agent (keep fl tools agent o)
  unfolding keep add
  keep-Recorded agent none h = refl
  keep-Recorded agent (some d) h = (h, refl)

  finish-Recorded :
      (agent : Agent fl) (fingerprint : String) (o : Option (DiagnosisResult F))
      → Named o
      → Recorded agent (finish fl tools agent fingerprint o)
  unfolding finish add index_fingerprint
  finish-Recorded agent fingerprint none h = refl
  finish-Recorded agent fingerprint (some d) h = elim (Bool-cases (is_completed d.status)) [
    | inl done ↦ rw done (h, refl)
    | inr other ↦ rw other (h, refl)
  ]

  make_failed_result-Named :
      (model : String) (times : Readings F) (status : Status) (error : String)
      → Named (make_failed_result fl model times diagnosis_id alert status error)
  unfolding make_failed_result failed_result
  make_failed_result-Named model times status error =
      validated-Named (failed_result fl model times diagnosis_id alert status error) refl refl refl

  pub make_llm_unavailable_result-Named :
      (model : String) (times : Readings F) (status : Status) (error : String)
      → Named (make_llm_unavailable_result fl model times diagnosis_id alert status error)
  unfolding make_llm_unavailable_result fallback_result
  make_llm_unavailable_result-Named model times status error =
      elim (Bool-cases (contains fallback_types alert.alert_type)) [
        | inl known ↦
            rw known (validated-Named (fallback_result fl times diagnosis_id alert) refl refl refl)
        | inr other ↦ rw other (make_failed_result-Named model times status error)
      ]

  diagnosis_of-Named :
      (model : String) (times : Readings F) (r : Response F) (input : Dict String (Json F))
      → Named (diagnosis_of fl reader model times diagnosis_id alert r input)
  unfolding diagnosis_of completed_result
  diagnosis_of-Named model times r input = elim (Option-cases (fields_of reader input)) [
    | inl e ↦ rw (e, diagnosis_of) tt
    | inr (fields, e) ↦
        rw (e, diagnosis_of)
          (validated-Named
            (completed_result fl reader model times diagnosis_id alert r.model fields) refl refl
            refl)
  ]

  unless_missing-Named :
      (model : String) (times : Readings F) (what : String) (fs : List String)
      (o : Option (DiagnosisResult F))
      → Named o
      → Named (unless_missing fl reader model times diagnosis_id alert what fs o)
  unless_missing-Named model times what [] o h = h
  unless_missing-Named model times what (f ∷ fs) o h = make_failed_result-Named model times failed _

  parse_action-Named :
      (model : String) (times : Readings F) (r : Response F) (input : Dict String (Json F))
      (action : Json F)
      → Named (parse_action fl reader model times diagnosis_id alert r input action)
  unfolding parse_action
  parse_action-Named model times r input action =
      elim (Option-cases (missing_action_fields reader action ("action" ∷ "urgency" ∷ []))) [
        | inl e ↦ rw (e, parse_action) tt
        | inr (missing, e) ↦
            rw (e, parse_action)
              (unless_missing-Named model times _ missing _
                (diagnosis_of-Named model times r input))
      ]

  parse_input-Named :
      (model : String) (times : Readings F) (r : Response F) (input : Dict String (Json F))
      → Named (parse_input fl reader model times diagnosis_id alert r input)
  unfolding parse_input
  parse_input-Named model times r input =
      unless_missing-Named model times _ (missing_fields input) _
        (elim (Option-cases (get "recommended_action" input)) [
          | inl e ↦ rw e tt
          | inr (action, e) ↦ rw e (parse_action-Named model times r input action)
        ])

  parse_response-Named :
      (model : String) (times : Readings F) (r : Response F)
      → Named (parse_response fl reader model times diagnosis_id alert r)
  unfolding parse_response
  parse_response-Named model times r = elim (Option-cases (tool_input r.content)) [
    | inl e ↦ rw (e, parse_response) (make_failed_result-Named model times failed _)
    | inr (input, e) ↦ rw (e, parse_response) (parse_input-Named model times r input)
  ]

  clone-Named :
      (times : Readings F) (d : DiagnosisResult F)
      → Named (validated fl (clone fl times diagnosis_id alert d))
  unfolding clone
  clone-Named times d = validated-Named (clone fl times diagnosis_id alert d) refl refl refl

  conclude-Recorded :
      (agent : Agent fl) (times : Readings F) (fingerprint : String) (reply : Reply F)
      → Recorded agent (conclude fl tools agent times diagnosis_id fingerprint alert reply)
  unfolding conclude
  conclude-Recorded agent times fingerprint (response r) =
      finish-Recorded agent fingerprint _ (parse_response-Named agent.model times r)
  conclude-Recorded agent times fingerprint rate_limit_error =
      keep-Recorded agent _ (make_llm_unavailable_result-Named agent.model times failed _)
  conclude-Recorded agent times fingerprint timeout_error =
      keep-Recorded agent _ (make_llm_unavailable_result-Named agent.model times failed _)
  conclude-Recorded agent times fingerprint (api_error name) =
      keep-Recorded agent _ (make_llm_unavailable_result-Named agent.model times failed _)
  conclude-Recorded agent times fingerprint (other_error name) =
      keep-Recorded agent _ (make_llm_unavailable_result-Named agent.model times failed _)

  ask-Recorded :
      (agent : Agent fl) (times : Readings F) (fingerprint : String)
      (call : String → String → Reply F) (message : Encoded String)
      → Recorded agent (ask fl tools agent times diagnosis_id fingerprint alert call message)
  unfolding ask
  ask-Recorded agent times fingerprint call (refused name) =
      keep-Recorded agent _ (make_failed_result-Named agent.model times failed _)
  ask-Recorded agent times fingerprint call (encoded message) =
      conclude-Recorded agent times fingerprint (call agent.model message)

  consult-Recorded :
      (agent : Agent fl) (w : World F) (times : Readings F) (fingerprint : String)
      (call : String → String → Reply F)
      → Recorded agent (consult fl tools agent w times diagnosis_id fingerprint alert call)
  unfolding consult
  consult-Recorded agent w times fingerprint call = ask-Recorded agent times fingerprint call _

  admitted-Recorded :
      (agent : Agent fl) (w : World F) (times : Readings F) (fingerprint : String) (granted : Bool)
      → Recorded agent (admitted fl tools agent w times diagnosis_id fingerprint alert granted)
  unfolding admitted
  admitted-Recorded agent w times fingerprint false =
      keep-Recorded agent _ (make_llm_unavailable_result-Named agent.model times rate_limited _)
  admitted-Recorded agent w times fingerprint true = elim (Option-cases agent.client) [
    | inl e ↦ rw e (keep-Recorded agent _ (make_failed_result-Named agent.model times failed _))
    | inr (call, e) ↦ rw e (consult-Recorded agent w times fingerprint call)
  ]

  -- Every result that a call returns passes the checks on results, carries the given identifier and
  -- the alert's and its node's, and is the newest entry of the store; a call that raises leaves the
  -- store as it was.
  pub diagnose-Recorded :
      (agent : Agent fl) (w : World F) (times : Readings F) (bypass_rate_limit : Bool)
      → Recorded agent (diagnose fl tools agent w times diagnosis_id alert bypass_rate_limit)
  unfolding diagnose diagnose_marked
  diagnose-Recorded agent w times bypass_rate_limit =
      elim (Option-cases (alert_fingerprint fl tools.texts alert)) [
        | inl e ↦ rw (e, diagnose) refl
        | inr (fingerprint, e) ↦ elim (Option-cases (lookup fl tools agent times fingerprint)) [
          | inl miss ↦
              let (granted, limiter) =
                acquire fl tools agent alert.node_id bypass_rate_limit times.monotonic in
              rw (e, diagnose, miss, diagnose_marked)
                (admitted-Recorded (record agent { rate_limiter = limiter }) w times fingerprint
                  granted)
          | inr (d, hit) ↦
              rw (e, diagnose, hit, diagnose_marked) (keep-Recorded agent _ (clone-Named times d))
        ]
      ]
