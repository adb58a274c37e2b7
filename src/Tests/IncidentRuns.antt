-- ===== src/Tests/IncidentRuns.antt =====
-- An incident that incident.io opens.
use solprobe.Prelude.{
  String, ◌<>◌, true, false, ◌≡◌, refl, none, some, [], ◌∷◌, Option, if◌then◌else◌, ◌==◌, string_eq,
  ◌⊎◌,
}
use solprobe.Models.Json.{text, object, member, end}
use solprobe.Routes.{replied, rejected}
use solprobe.Routes.IncidentIo.{
  Tools, IncidentIoServiceRequest, Outgoing, Outcome, answered, create_incident_io_service_incident,
}
use solprobe.Routes.IncidentIo.Outcomes.{Answered, is_well_formed, key, create_incident-outcomes}
use solprobe.Tests.Data.{floats}

abbrev environment : String → Option String
environment name = if name == "INCIDENT_IO_API_KEY" then some "secret" else none

abbrev tools : Tools
tools = record {
  getenv = environment;
  strip = λ s. s;
  strip_slashes = λ s. s;
  lower = λ s. s;
  dashes = λ s. s;
  size = λ s. 7;
  show_nat = λ n. "0";
}

abbrev opened : Outgoing → Outcome floats.F
opened request = answered (object (member "incident" (object (member "id" (text "01H") end)) end))

abbrev backend_down : IncidentIoServiceRequest
backend_down = record { service = "Backend"; status = "down"; summary = none }

reply_in_test_mode :
    (create_incident_io_service_incident tools floats opened 1000 backend_down).0
    ≡ replied 200
        (record { incident_id = "01H"; reference = none; permalink = none; mode = "test" })
unfolding create_incident_io_service_incident
reply_in_test_mode = refl

create_incident-outcomes_example :
    ((is_well_formed tools floats opened backend_down ≡ false)
      × (create_incident_io_service_incident tools floats opened 1000 backend_down
          ≡ (rejected 422, [])))
    ⊎ (((is_well_formed tools floats opened backend_down ≡ true)
          × (key tools floats opened == "" ≡ true)
          × (create_incident_io_service_incident tools floats opened 1000 backend_down
              ≡ (rejected 503, [])))
        ⊎ ((is_well_formed tools floats opened backend_down ≡ true)
            × (key tools floats opened == "" ≡ false)
            × ((request : Outgoing) × ((create_incident_io_service_incident tools floats opened 1000
                    backend_down).1
                  ≡ request ∷ [])
                × (request.api_key ≡ "secret")
                × (request.url ≡ "https://api.incident.io" <> "/v2/incidents")
                × Answered tools floats opened request
                    (opened request)
                    (create_incident_io_service_incident tools floats opened 1000 backend_down).0)))
create_incident-outcomes_example = create_incident-outcomes tools floats opened 1000 backend_down
