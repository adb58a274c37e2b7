-- ===== src/Diagnosis/Agent/Parsing.antt =====
-- `_parse_response` of backend/app/diagnosis/agent.py. What `in` finds in a text and what pydantic
-- reads as a number are parameters; `none` is an exception.
use solprobe.Prelude.{
  String, ◌<>◌, Bool, true, false, not, ◌&&◌, Option, none, some, List, [], ◌∷◌, filter_by,
  if◌then◌else◌, ◌==◌, string_eq, is_some, ◌>>=◌,
}
use solprobe.Prelude.Int.{sub_ℕ}
use solprobe.Prelude.Floats.{Floats}
use solprobe.Prelude.Dict.{Dict, get}
use solprobe.Models.Json.{Json, null, flag, number, text, array, object, elements, members}
use solprobe.Models.Alerts.{Alert}
use solprobe.Models.Diagnoses.{
  DiagnosisResult, RecommendedAction, EvidenceItem, failed, completed, Urgency, immediate, soon,
  monitor,
}
use solprobe.Detectors.Instability.{join}
use solprobe.Diagnosis.Agent.Results.{Readings, validated, make_failed_result}

-- A block of the content of a response; only tool calls are read.
pub record Block (F : Type 0) : Type 0 where
  pub kind : String
  pub name : String
  pub input : Dict String (Json F)

pub record Response (F : Type 0) : Type 0 where
  pub model : Option String
  pub content : List (Block F)

pub record Reader (F : Type 0) : Type 0 where
  -- part in whole, of texts
  pub occurs_in : String → String → Bool
  -- what pydantic takes for a `float`
  pub to_float : Json F → Option F

-- A text, or pydantic's exception.
abbrev pub as_text : {F : Type 0} → Json F → Option String
as_text null = none
as_text (flag b) = none
as_text (number x) = none
as_text (text s) = some s
as_text (array xs) = none
as_text (object ms) = none

abbrev pub as_urgency : String → Option Urgency
as_urgency s =
    if s == "immediate"
    then some immediate
    else if s == "soon"
    then some soon
    else if s == "monitor"
    then some monitor
    else none

abbrev pub required_fields : List String
required_fields =
    "root_cause" ∷ "confidence" ∷ "reasoning" ∷ "evidence_chain" ∷ "recommended_action" ∷ []

module _ {F : Type 0} where
  unfoldable pub tool_input : List (Block F) → Option (Dict String (Json F))
  tool_input [] = none
  tool_input (b ∷ bs) =
      if b.kind == "tool_use" && b.name == "submit_diagnosis" then some b.input else tool_input bs

  unfoldable pub missing_fields : Dict String (Json F) → List String
  unfolding get
  missing_fields input = filter_by (λ field. not (is_some (get field input))) required_fields

  -- Whether a list of JSON values holds the text.
  abbrev pub holds_text : String → List (Json F) → Bool
  holds_text s [] = false
  holds_text s (x ∷ xs) = elim (as_text x) [
    | none ↦ holds_text s xs
    | some t ↦ if t == s then true else holds_text s xs
  ]

  -- `field in action_data`; `none` is a `TypeError`.
  abbrev pub field_in : Reader F → String → Json F → Option Bool
  field_in reader field null = none
  field_in reader field (flag b) = none
  field_in reader field (number x) = none
  field_in reader field (text s) = some (reader.occurs_in field s)
  field_in reader field (array xs) = some (holds_text field (elements xs))
  field_in reader field (object ms) = some (is_some (get field (members ms)))

  unfoldable pub missing_action_fields : Reader F → Json F → List String → Option (List String)
  unfolding get
  missing_action_fields reader action [] = some []
  missing_action_fields reader action (field ∷ fields) = elim (field_in reader field action) [
    | none ↦ none
    | some there ↦ elim (missing_action_fields reader action fields) [
      | none ↦ none
      | some rest ↦ some (if there then rest else field ∷ rest)
    ]
  ]

  -- e.get(key, "") as a text
  abbrev pub text_or_empty : Dict String (Json F) → String → Option String
  text_or_empty e key = elim (get key e) [ none ↦ some "" | some v ↦ as_text v ]

  unfoldable pub evidence_item : Json F → Option EvidenceItem
  unfolding get
  evidence_item null = none
  evidence_item (flag b) = none
  evidence_item (number x) = none
  evidence_item (text s) = none
  evidence_item (array xs) = none
  evidence_item (object ms) = do
    let e = members ms
    metric ← text_or_empty e "metric"
    value ← text_or_empty e "value"
    context ← text_or_empty e "context"
    some (record { metric = metric; value = value; context = context })

  unfoldable pub evidence_items : List (Json F) → Option (List EvidenceItem)
  unfolding evidence_item
  evidence_items [] = some []
  evidence_items (x ∷ xs) = elim (evidence_item x) [
    | none ↦ none
    | some item ↦ elim (evidence_items xs) [ none ↦ none | some rest ↦ some (item ∷ rest) ]
  ]

  -- The loop over what was given as the evidence: the keys of an object and the characters of a text
  -- are texts, which have no `get`.
  unfoldable pub evidence_chain : Json F → Option (List EvidenceItem)
  unfolding evidence_items
  evidence_chain null = none
  evidence_chain (flag b) = none
  evidence_chain (number x) = none
  evidence_chain (text s) = if s == "" then some [] else none
  evidence_chain (array xs) = evidence_items (elements xs)
  evidence_chain (object ms) = elim (members ms) [ [] ↦ some [] | m ∷ rest ↦ none ]

  -- action_data.get("params", {}) as a dictionary
  abbrev pub params_of : Option (Json F) → Option (Dict String (Json F))
  params_of none = some []
  params_of (some null) = none
  params_of (some (flag b)) = none
  params_of (some (number x)) = none
  params_of (some (text s)) = none
  params_of (some (array xs)) = none
  params_of (some (object ms)) = some (members ms)

  -- A list or a text has no item `"action"`.
  unfoldable pub recommended : Json F → Option (RecommendedAction F)
  unfolding get
  recommended null = none
  recommended (flag b) = none
  recommended (number x) = none
  recommended (text s) = none
  recommended (array xs) = none
  recommended (object ms) = do
    let given = members ms
    action ← get "action" given
    action_text ← as_text action
    params ← params_of (get "params" given)
    urgency ← get "urgency" given
    urgency_text ← as_text urgency
    urgency_value ← as_urgency urgency_text
    some (record { action = action_text; params = params; urgency = urgency_value })

-- What is read from an input that has all fields.
pub record Fields (F : Type 0) : Type 0 where
  pub evidence : List EvidenceItem
  pub action : RecommendedAction F
  pub root_cause : String
  pub confidence : F
  pub reasoning : String

unfoldable pub fields_of : {F : Type 0} → Reader F → Dict String (Json F) → Option (Fields F)
unfolding get evidence_chain recommended
fields_of reader input = do
  chain_data ← get "evidence_chain" input
  chain ← evidence_chain chain_data
  action_data ← get "recommended_action" input
  action ← recommended action_data
  root_data ← get "root_cause" input
  root_cause ← as_text root_data
  confidence_data ← get "confidence" input
  confidence ← reader.to_float confidence_data
  reasoning_data ← get "reasoning" input
  reasoning ← as_text reasoning_data
  some (record {
    evidence = chain;
    action = action;
    root_cause = root_cause;
    confidence = confidence;
    reasoning = reasoning;
  })

module _ (fl : Floats) (reader : Reader fl.F) where
  open fl use {F}

  abbrev or_default : String → Option String → String
  or_default model none = model
  or_default model (some m) = m

  unfoldable pub completed_result :
      String → Readings F → String → Alert F → Option String → Fields F → DiagnosisResult F
  completed_result model times diagnosis_id alert answered fields = record {
    diagnosis_id = diagnosis_id;
    alert_id = alert.alert_id;
    alert_type = alert.alert_type;
    node_id = alert.node_id;
    timestamp_ms = times.stamp_ms;
    root_cause = fields.root_cause;
    confidence = fields.confidence;
    reasoning = fields.reasoning;
    evidence_chain = fields.evidence;
    recommended_action = fields.action;
    similar_incidents = [];
    llm_model = or_default model answered;
    latency_ms = sub_ℕ times.parsed_ms times.start_ms;
    status = completed;
    error = none;
    cached_from = none;
  }

  -- The diagnosis of an input that has all fields.
  unfoldable pub diagnosis_of :
      String
      → Readings F
      → String
      → Alert F
      → Response F
      → Dict String (Json F)
      → Option (DiagnosisResult F)
  unfolding fields_of completed_result validated
  diagnosis_of model times diagnosis_id alert response input = elim (fields_of reader input) [
    | none ↦ none
    | some fields ↦
        validated fl (completed_result model times diagnosis_id alert response.model fields)
  ]

  abbrev pub failure : String → Readings F → String → Alert F → String → Option (DiagnosisResult F)
  failure model times diagnosis_id alert error =
      make_failed_result fl model times diagnosis_id alert failed error

  -- The failed result if a field is missing, and what follows else.
  abbrev pub unless_missing :
      String
      → Readings F
      → String
      → Alert F
      → String
      → List String
      → Option (DiagnosisResult F)
      → Option (DiagnosisResult F)
  unless_missing model times diagnosis_id alert what [] result = result
  unless_missing model times diagnosis_id alert what (f ∷ fs) result =
      failure model times diagnosis_id alert ("LLM response " <> what <> ": " <> join ", " (f ∷ fs))

  -- Once the input has its five fields.
  unfoldable pub parse_action :
      String
      → Readings F
      → String
      → Alert F
      → Response F
      → Dict String (Json F)
      → Json F
      → Option (DiagnosisResult F)
  unfolding missing_action_fields diagnosis_of make_failed_result join
  parse_action model times diagnosis_id alert response input action =
      elim (missing_action_fields reader action ("action" ∷ "urgency" ∷ [])) [
        | none ↦ none
        | some missing ↦
            unless_missing model times diagnosis_id alert "recommended_action missing" missing
              (diagnosis_of model times diagnosis_id alert response input)
      ]

  unfoldable pub parse_input :
      String
      → Readings F
      → String
      → Alert F
      → Response F
      → Dict String (Json F)
      → Option (DiagnosisResult F)
  unfolding get missing_fields parse_action make_failed_result join
  parse_input model times diagnosis_id alert response input =
      unless_missing model times diagnosis_id alert "missing required fields" (missing_fields input)
        (elim (get "recommended_action" input) [
          | none ↦ none
          | some action ↦ parse_action model times diagnosis_id alert response input action
        ])

  -- `_parse_response`
  unfoldable pub parse_response :
      String → Readings F → String → Alert F → Response F → Option (DiagnosisResult F)
  unfolding tool_input parse_input make_failed_result
  parse_response model times diagnosis_id alert response = elim (tool_input response.content) [
    | none ↦
        failure model times diagnosis_id alert "No submit_diagnosis tool_use block in LLM response"
    | some input ↦ parse_input model times diagnosis_id alert response input
  ]
