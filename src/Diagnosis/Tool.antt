-- ===== src/Diagnosis/Tool.antt =====
-- ROOT_CAUSES and the input schema of DIAGNOSIS_TOOL in backend/app/diagnosis/prompts.py, without its
-- descriptions, and what it means for a JSON value to follow a schema.
pub mod Parts
pub mod Conforming
use solprobe.Prelude.{
  String, Bool, true, false, ◌&&◌, Option, none, some, List, [], ◌∷◌, is_some, contains, string_eq,
}
use solprobe.Prelude.Int.{pos}
use solprobe.Prelude.Floats.{Floats}
use solprobe.Prelude.Dict.{Dict, get}
use solprobe.Models.Json.{Json, null, flag, number, text, array, object, elements, members}
use solprobe.Diagnosis.Actions.{valid_action_ids}
use solprobe.Diagnosis.Agent.Parsing.{as_text}

-- The schemas that the tool uses: a text, a text of an enumeration, a number between two bounds, an
-- array, and an object with its required keys and the schemas of its properties.
mutual
  pub data Schema (F : Type 0) : Type 0 where
    any_text : Schema F
    one_of : List String → Schema F
    between : F → F → Schema F
    array_of : Schema F → Schema F
    object_of : List String → Properties F → Schema F

  pub data Properties (F : Type 0) : Type 0 where
    no_more : Properties F
    property : String → Schema F → Properties F → Properties F

abbrev pub root_causes : List String
root_causes =
    "thermal_throttle" ∷ "memory_exhaustion" ∷ "hardware_fault" ∷ "ecc_degradation" ∷ "power_limit"
    ∷ "gradient_instability" ∷ "data_corruption" ∷ "network_degradation" ∷ "straggler_bottleneck"
    ∷ "sync_failure" ∷ "model_divergence" ∷ "learning_rate_issue" ∷ "nccl_failure"
    ∷ "clock_throttle" ∷ "unknown" ∷ []

module _ {F : Type 0} where
  abbrev pub evidence_schema : Schema F
  evidence_schema =
      object_of ("metric" ∷ "value" ∷ "context" ∷ []) (
        property "metric" any_text
          (property "value" any_text (property "context" any_text no_more)))

  abbrev pub action_schema : Schema F
  action_schema = object_of ("action" ∷ "params" ∷ "urgency" ∷ []) (
      property "action" (one_of valid_action_ids) (
        property "params" (object_of [] no_more)
          (property "urgency" (one_of ("immediate" ∷ "soon" ∷ "monitor" ∷ [])) no_more)))

module _ (fl : Floats) where
  open fl use {F, le, literal}

  -- DIAGNOSIS_TOOL["input_schema"]
  abbrev pub diagnosis_tool : Schema F
  diagnosis_tool =
      object_of
        ("root_cause" ∷ "confidence" ∷ "reasoning" ∷ "evidence_chain" ∷ "recommended_action" ∷ [])
        (property "root_cause" (one_of root_causes) (
          property "confidence" (between (literal (pos 0) 1) (literal (pos 10) 1)) (
            property "reasoning" any_text (
              property "evidence_chain" (array_of evidence_schema)
                (property "recommended_action" action_schema no_more)))))

  abbrev pub is_one_of : List String → Option String → Bool
  is_one_of values none = false
  is_one_of values (some t) = contains values t

  abbrev pub is_between : F → F → Json F → Bool
  is_between low high (number x) = le low x && le x high
  is_between low high _ = false

  abbrev pub all_elements : (Json F → Bool) → List (Json F) → Bool
  all_elements test [] = true
  all_elements test (x ∷ xs) = test x && all_elements test xs

  abbrev pub is_array : (Json F → Bool) → Json F → Bool
  is_array test (array xs) = all_elements test (elements xs)
  is_array test _ = false

  abbrev pub has_all : List String → Dict String (Json F) → Bool
  has_all [] d = true
  has_all (k ∷ ks) d = is_some (get k d) && has_all ks d

  abbrev pub is_object : List String → (Dict String (Json F) → Bool) → Json F → Bool
  is_object required test (object ms) = has_all required (members ms) && test (members ms)
  is_object required test _ = false

  abbrev pub if_there : (Json F → Bool) → Option (Json F) → Bool
  if_there test none = true
  if_there test (some v) = test v

  -- Whether a value follows a schema; a property that is not required may be absent.
  unfoldable mutual
    pub conforms : Schema F → Json F → Bool
    conforms any_text j = is_some (as_text j)
    conforms (one_of values) j = is_one_of values (as_text j)
    conforms (between low high) j = is_between low high j
    conforms (array_of s) j = is_array (conforms s) j
    conforms (object_of required properties) j = is_object required (conforms_all properties) j

    pub conforms_all : Properties F → Dict String (Json F) → Bool
    conforms_all no_more d = true
    conforms_all (property k s properties) d =
        if_there (conforms s) (get k d) && conforms_all properties d
