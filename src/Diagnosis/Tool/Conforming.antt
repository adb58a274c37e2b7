-- ===== src/Diagnosis/Tool/Conforming.antt =====
-- Responses that follow the schema of the tool, and what `_parse_response` makes of them.
use solprobe.Prelude.{
  ◌≡◌, refl, ap, ◌∙◌, String, true, Option, some, List, [], ◌∷◌, contains, string_eq,
}
use solprobe.Prelude.Int.{pos}
use solprobe.Prelude.Floats.{Floats}
use solprobe.Prelude.Dict.{Dict, get}
use solprobe.Models.Json.{Json, number, object, Members, members}
use solprobe.Models.Alerts.{Alert}
use solprobe.Models.Diagnoses.{
  DiagnosisResult, RecommendedAction, EvidenceItem, completed, check_status_error_consistency,
}
use solprobe.Diagnosis.Actions.{valid_action_ids}
use solprobe.Diagnosis.Agent.Results.{Readings, validated, is_acceptable}
use solprobe.Diagnosis.Agent.Parsing.{
  Reader, Response, as_text, recommended, missing_action_fields, evidence_chain, required_fields,
  fields_of, Fields, missing_fields, tool_input, parse_response, parse_input, parse_action,
  diagnosis_of, completed_result,
}
use solprobe.Diagnosis.Tool.{
  root_causes, evidence_schema, action_schema, diagnosis_tool, conforms, has_all, array_of,
  any_text, between, one_of,
}
use solprobe.Diagnosis.Tool.Parts.{
  both, taken, chosen, some_text, action-ActionRead, evidence_chain-conforming,
  confidence-conforming,
}

module _ (fl : Floats) where
  open fl use {F, le, literal}

  -- A result that the parser completed, with a cause and an action that the tool offers.
  abbrev pub Completed : Option (DiagnosisResult F) → Type 0
  Completed r =
      (d : DiagnosisResult F) × (r ≡ some d)
      × (d.status ≡ completed)
      × (contains root_causes d.root_cause ≡ true)
      × (contains valid_action_ids d.recommended_action.action ≡ true)

  -- The five fields that follow their schemas.
  abbrev FieldsRead : Reader F → Dict String (Json F) → Type 0
  FieldsRead reader d =
      (fields : Fields F) × (fields_of reader d ≡ some fields)
      × (missing_fields d ≡ [])
      × (le (literal (pos 0) 1) fields.confidence ≡ true)
      × (le fields.confidence (literal (pos 10) 1) ≡ true)
      × (contains root_causes fields.root_cause ≡ true)
      × (contains valid_action_ids fields.action.action ≡ true)
      × ((action : Json F) × (get "recommended_action" d ≡ some action)
          × (missing_action_fields reader action ("action" ∷ "urgency" ∷ []) ≡ some []))

  fields_of-eq :
      (reader : Reader F) (d : Dict String (Json F))
      {chain action root confidence reasoning : Json F} {items : List EvidenceItem}
      {a : RecommendedAction F} {c t : String} {x : F}
      → get "evidence_chain" d ≡ some chain
      → evidence_chain chain ≡ some items
      → get "recommended_action" d ≡ some action
      → recommended action ≡ some a
      → get "root_cause" d ≡ some root
      → as_text root ≡ some c
      → get "confidence" d ≡ some confidence
      → reader.to_float confidence ≡ some x
      → get "reasoning" d ≡ some reasoning
      → as_text reasoning ≡ some t
      → fields_of reader d
        ≡ some
            (record { evidence = items; action = a; root_cause = c; confidence = x; reasoning = t })
  unfolding fields_of
  fields_of-eq reader d e1 e2 e3 e4 e5 e6 e7 e8 e9 e10 =
      rw (e1, e2, e3, e4, e5, e6, e7, e8, e9, e10) refl

  missing_fields-eq :
      (d : Dict String (Json F)) {chain action root confidence reasoning : Json F}
      → get "root_cause" d ≡ some root
      → get "confidence" d ≡ some confidence
      → get "reasoning" d ≡ some reasoning
      → get "evidence_chain" d ≡ some chain
      → get "recommended_action" d ≡ some action
      → missing_fields d ≡ []
  unfolding missing_fields
  missing_fields-eq d e1 e2 e3 e4 e5 = rw (e1, e2, e3, e4, e5) refl

  input-FieldsRead :
      (reader : Reader F) (ms : Members F)
      → ((x : F) → reader.to_float (number x) ≡ some x)
      → conforms fl (diagnosis_tool fl) (object ms) ≡ true
      → FieldsRead reader (members ms)
  unfolding conforms
  input-FieldsRead reader ms as_is h =
      let d = members ms in
      let (keys, values) = both (has_all fl required_fields d) _ h in
      let (root, at_root, is_root, keys1, values1) =
        taken fl (conforms fl (one_of root_causes)) (get "root_cause" d) _ _ keys values in
      let (confidence, at_confidence, is_confidence, keys2, values2) =
        taken fl (conforms fl (between (literal (pos 0) 1) (literal (pos 10) 1)))
          (get "confidence" d) _ _ keys1 values1 in
      let (reasoning, at_reasoning, is_reasoning, keys3, values3) =
        taken fl (conforms fl any_text) (get "reasoning" d) _ _ keys2 values2 in
      let (chain, at_chain, is_chain, keys4, values4) =
        taken fl (conforms fl (array_of evidence_schema)) (get "evidence_chain" d) _ _ keys3
          values3 in
      let (action, at_action, is_action, _, _) =
        taken fl (conforms fl action_schema) (get "recommended_action" d) _ _ keys4 values4 in
      let (c, text_of_root, known_root) = chosen fl root_causes (as_text root) is_root in
      let (x, is_number, low, high) = confidence-conforming fl confidence is_confidence in
      let (t, text_of_reasoning) = some_text fl (as_text reasoning) is_reasoning in
      let (items, read_chain) = evidence_chain-conforming fl chain is_chain in
      let (a, read_action, known_action, all_there) =
        action-ActionRead fl reader action is_action in
      (
        record { evidence = items; action = a; root_cause = c; confidence = x; reasoning = t },
        fields_of-eq reader d at_chain read_chain at_action read_action at_root text_of_root
            at_confidence (ap reader.to_float is_number ∙ as_is x) at_reasoning text_of_reasoning,
        missing_fields-eq d at_root at_confidence at_reasoning at_chain at_action,
        low,
        high,
        known_root,
        known_action,
        (action, at_action, all_there),
      )

  parse_response-eq :
      (reader : Reader F) (model : String) (times : Readings F) (diagnosis_id : String)
      (alert : Alert F) (response : Response F) {d : Dict String (Json F)} {action : Json F}
      (fields : Fields F)
      → tool_input response.content ≡ some d
      → missing_fields d ≡ []
      → get "recommended_action" d ≡ some action
      → missing_action_fields reader action ("action" ∷ "urgency" ∷ []) ≡ some []
      → fields_of reader d ≡ some fields
      → le (literal (pos 0) 1) fields.confidence ≡ true
      → le fields.confidence (literal (pos 10) 1) ≡ true
      → parse_response fl reader model times diagnosis_id alert response
        ≡ some (completed_result fl reader model times diagnosis_id alert response.model fields)
  unfolding parse_response parse_input parse_action diagnosis_of validated is_acceptable
      completed_result check_status_error_consistency
  parse_response-eq reader model times diagnosis_id alert response fields e1 e2 e3 e4 e5 e6 e7 =
      rw
        (
          parse_response, e1, parse_input, e2, e3, parse_action, e4, diagnosis_of, e5, validated,
          e6, e7,
        )
        refl

  -- A response whose first call of the tool follows the tool's schema is parsed to a completed
  -- diagnosis with one of the root causes and an action of the catalog, provided that a number is
  -- read as it is.
  pub parse_response-Completed :
      (reader : Reader F) (model : String) (times : Readings F) (diagnosis_id : String)
      (alert : Alert F) (response : Response F) (ms : Members F)
      → ((x : F) → reader.to_float (number x) ≡ some x)
      → tool_input response.content ≡ some (members ms)
      → conforms fl (diagnosis_tool fl) (object ms) ≡ true
      → Completed (parse_response fl reader model times diagnosis_id alert response)
  unfolding completed_result
  parse_response-Completed reader model times diagnosis_id alert response ms as_is input h =
      let (
        fields,
        read,
        complete,
        low,
        high,
        known_root,
        known_action,
        (action, at_action, all_there),
      ) =
        input-FieldsRead reader ms as_is h in
      (
        completed_result fl reader model times diagnosis_id alert response.model fields,
        parse_response-eq reader model times diagnosis_id alert response fields input complete
            at_action all_there read low high,
        refl,
        known_root,
        known_action,
      )
