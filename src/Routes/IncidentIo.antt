-- ===== src/Routes/IncidentIo.antt =====
-- The handler of backend/app/api/routes.py that opens an incident at incident.io. The environment, the
-- text functions of Python, the clock and the HTTP client are parameters.
pub mod Answers
pub mod Outcomes
use solprobe.Prelude.{
  ℕ, String, ◌<>◌, Bool, true, false, ◌&&◌, leb, Option, none, some, List, [], ◌∷◌, ◌++◌, ◌>>=◌,
  if◌then◌else◌, ◌==◌, string_eq, contains,
}
use solprobe.Prelude.Int.{pos}
use solprobe.Prelude.Floats.{Floats}
use solprobe.Prelude.Dict.{Dict, get}
use solprobe.Models.Json.{Json, null, flag, number, text, array, object, elements, members}
use solprobe.Routes.{Http, replied, rejected}

pub record IncidentIoServiceRequest : Type 0 where
  pub service : String
  pub status : String
  pub summary : Option String

pub record IncidentIoCreateResponse : Type 0 where
  pub incident_id : String
  pub reference : Option String
  pub permalink : Option String
  pub mode : String

-- A request to incident.io, with its key and its payload.
pub record Outgoing : Type 0 where
  pub url : String
  pub api_key : String
  pub payload : Dict String String

-- What comes of a request: the exceptions that are caught, any other, or the JSON of the answer.
pub data Outcome (F : Type 0) : Type 0 where
  http_error url_error other_error : Outcome F
  answered : Json F → Outcome F

-- getenv(name), strip(), rstrip("/"), lower(), replace(" ", "-"), len() and the text of a number
pub record Tools : Type 0 where
  pub getenv : String → Option String
  pub strip : String → String
  pub strip_slashes : String → String
  pub lower : String → String
  pub dashes : String → String
  pub size : String → ℕ
  pub show_nat : ℕ → String

-- `s or t`
abbrev pub or_else : String → String → String
or_else s t = if s == "" then t else s

abbrev pub present : Option String → String → String
present none default = default
present (some s) default = s

-- An optional field of the payload: a text that is there and not empty.
abbrev pub when_set : String → Option String → Dict String String
when_set key none = []
when_set key (some s) = if s == "" then [] else (key, s) ∷ []

module _ (tools : Tools) where
  open tools use {getenv, strip, strip_slashes, lower, dashes, size, show_nat}

  abbrev summary_fits : Option String → Bool
  summary_fits none = true
  summary_fits (some s) = leb (size s) 1000

  -- The checks of `IncidentIoServiceRequest`.
  unfoldable pub is_request : IncidentIoServiceRequest → Bool
  is_request body =
      leb 1 (size body.service)
      && leb (size body.service) 80
      && contains ("degraded" ∷ "down" ∷ "maintenance" ∷ []) body.status
      && summary_fits body.summary

  abbrev summary_of : Option String → String → String → String
  summary_of none service status = service <> " is currently " <> status <> "."
  summary_of (some s) service status =
      if s == "" then service <> " is currently " <> status <> "." else strip s

  abbrev pub mode_of_environment : String
  mode_of_environment = or_else (strip (present (getenv "INCIDENT_IO_MODE") "test")) "test"

  unfoldable pub incident_io_service_payload : ℕ → IncidentIoServiceRequest → Dict String String
  incident_io_service_payload now_ms body =
      let service = strip body.service in
      let status = strip body.status in
      (
        "idempotency_key",
        "solprobe-infra-" <> dashes (lower service) <> "-" <> status <> "-" <> show_nat now_ms,
      )
      ∷ ("mode", mode_of_environment)
      ∷ (
        "visibility",
        or_else (strip (present (getenv "INCIDENT_IO_VISIBILITY") "public")) "public",
      )
      ∷ ("name", "SolProbe service " <> status <> ": " <> service)
      ∷ (
        "summary",
        summary_of body.summary service status
            <> "\n\nSource: SolProbe status page\nService: "
            <> service
            <> "\nStatus: "
            <> status,
      )
      ∷ (when_set "severity_id" (getenv "INCIDENT_IO_SEVERITY_ID")
          ++ when_set "incident_type_id" (getenv "INCIDENT_IO_INCIDENT_TYPE_ID"))

  abbrev pub api_key_of_environment : String
  api_key_of_environment = strip (present (getenv "INCIDENT_IO_API_KEY") "")

  unfoldable pub outgoing : Dict String String → Outgoing
  outgoing payload = record {
    url =
        strip_slashes (present (getenv "INCIDENT_IO_API_URL") "https://api.incident.io")
        <> "/v2/incidents";
    api_key = api_key_of_environment;
    payload = payload;
  }

  module _ (fl : Floats) (send : Outgoing → Outcome fl.F) where
    open fl use {F, eq, literal}

    -- The rejection of a failed call; other exceptions are answered by 500.
    abbrev pub loaded : Outcome F → Http (Json F)
    loaded http_error = rejected 502
    loaded url_error = rejected 502
    loaded other_error = rejected 500
    loaded (answered j) = replied 200 j

    -- The answer, and the requests that were sent. Without a key a `RuntimeError` is raised.
    unfoldable pub post_incident_io_json : Dict String String → Http (Json F) × List Outgoing
    unfolding outgoing
    post_incident_io_json payload =
        if api_key_of_environment == ""
        then (rejected 500, [])
        else (loaded (send (outgoing payload)), outgoing payload ∷ [])

    -- `value or {}` with the `get` of what follows; `none` is an `AttributeError`.
    abbrev pub fields_of_incident : Option (Json F) → Option (Dict String (Json F))
    fields_of_incident none = some []
    fields_of_incident (some null) = some []
    fields_of_incident (some (flag b)) = if b then none else some []
    fields_of_incident (some (number x)) = if eq x (literal (pos 0) 1) then some [] else none
    fields_of_incident (some (text s)) = if s == "" then some [] else none
    fields_of_incident (some (array xs)) = elim (elements xs) [ [] ↦ some [] | y ∷ ys ↦ none ]
    fields_of_incident (some (object ms)) = some (members ms)

    abbrev pub incident_of : Json F → Option (Dict String (Json F))
    incident_of (object ms) = fields_of_incident (get "incident" (members ms))
    incident_of _ = none

    -- The fields of the response; `none` is pydantic's exception.
    abbrev pub identifier : Option (Json F) → Option String
    identifier none = some ""
    identifier (some (text s)) = some s
    identifier (some _) = none

    abbrev pub optional_text : Option (Json F) → Option (Option String)
    optional_text none = some none
    optional_text (some null) = some none
    optional_text (some (text s)) = some (some s)
    optional_text (some _) = none

    unfoldable pub created : Json F → Option IncidentIoCreateResponse
    unfolding get
    created result = do
      incident ← incident_of result
      incident_id ← identifier (get "id" incident)
      reference ← optional_text (get "reference" incident)
      permalink ← optional_text (get "permalink" incident)
      some (record {
        incident_id = incident_id;
        reference = reference;
        permalink = permalink;
        mode = mode_of_environment;
      })

    abbrev pub answer_with : Http (Json F) → Http IncidentIoCreateResponse
    answer_with (rejected code) = rejected code
    answer_with (replied code result) = elim (created result) [
      | none ↦ rejected 500
      | some response ↦ replied 200 response
    ]

    abbrev with_answer :
        Http (Json F) × List Outgoing → Http IncidentIoCreateResponse × List Outgoing
    with_answer (result, sent) = (answer_with result, sent)

    -- The reply, and the requests that were sent.
    unfoldable pub create_incident_io_service_incident :
        ℕ → IncidentIoServiceRequest → Http IncidentIoCreateResponse × List Outgoing
    unfolding is_request incident_io_service_payload post_incident_io_json created
    create_incident_io_service_incident now_ms body =
        if is_request body
        then if api_key_of_environment == ""
          then (rejected 503, [])
          else with_answer (post_incident_io_json (incident_io_service_payload now_ms body))
        else (rejected 422, [])
