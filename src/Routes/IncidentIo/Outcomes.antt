-- ===== src/Routes/IncidentIo/Outcomes.antt =====
-- What the handler for incidents answers, and when it sends a request.
use solprobe.Prelude.{
  String, Bool, arith, not, ◌&&◌, ◌||◌, ltb, ◌∙◌, ℕ, ◌<>◌, true, false, ◌≡◌, refl, sym, none, some,
  [], ◌∷◌, ◌==◌, string_eq, Bool-cases, ◌⊎◌, inl, inr, ap, subst,
}
use solprobe.Prelude.Floats.{Floats}
use solprobe.Prelude.Dict.{Dict, get}
use solprobe.Models.Json.{Json}
use solprobe.Routes.{Http, replied, rejected}
use solprobe.Routes.IncidentIo.Answers.{
  IncidentIn, ReadFrom, Unreadable, incident_of-cases, identifier-cases, optional_text-cases,
}
use solprobe.Routes.IncidentIo.{
  Tools, IncidentIoServiceRequest, IncidentIoCreateResponse, Outgoing, Outcome, http_error,
  url_error, other_error, answered, is_request, mode_of_environment, incident_io_service_payload,
  api_key_of_environment, outgoing, post_incident_io_json, created, answer_with, loaded, present,
  create_incident_io_service_incident,
}

module _ (tools : Tools) (fl : Floats) (send : Outgoing → Outcome fl.F) where
  open fl use {F}

  mode_of_environment-nonempty : mode_of_environment tools == "" ≡ false
  mode_of_environment-nonempty =
      elim (Bool-cases (tools.strip (present (tools.getenv "INCIDENT_IO_MODE") "test") == "")) [
        | inl blank ↦ rw blank refl
        | inr set ↦ rw set set
      ]

  created-cases :
      (j : Json F)
      → ((d : Dict String (Json F)) × (r : IncidentIoCreateResponse) × (created tools fl send j
            ≡ some r)
          × IncidentIn fl j d
          × ReadFrom d r
          × (r.mode ≡ mode_of_environment tools))
        ⊎ ((created tools fl send j ≡ none) × Unreadable fl j)
  unfolding created
  created-cases j = elim (incident_of-cases fl tools send j) [
    | inr (e, nowhere) ↦ inr (rw (created, e) refl, inl nowhere)
    | inl (d, e, here) ↦ elim (identifier-cases fl tools send (get "id" d)) [
      | inr (e1, bad) ↦ inr (rw (created, e, e1) refl, inr (d, here, inl bad))
      | inl (i, e1, id) ↦ elim (optional_text-cases fl tools send (get "reference" d)) [
        | inr (e2, bad) ↦ inr (rw (created, e, e1, e2) refl, inr (d, here, inr (inl bad)))
        | inl (ref, e2, reference) ↦ elim (optional_text-cases fl tools send (get "permalink" d)) [
          | inr (e3, bad) ↦ inr (rw (created, e, e1, e2, e3) refl, inr (d, here, inr (inr bad)))
          | inl (link, e3, permalink) ↦ inl (
            d,
            record {
              incident_id = i;
              reference = ref;
              permalink = link;
              mode = mode_of_environment tools;
            },
            rw (created, e, e1, e2, e3) refl,
            here,
            (id, reference, permalink),
            refl,
          )
        ]
      ]
    ]
  ]

  -- The reply to a request that was sent, by what came of it.
  abbrev pub Answered : Outgoing → Outcome F → Http IncidentIoCreateResponse → Type 0
  Answered request outcome reply =
      (((outcome ≡ http_error) ⊎ (outcome ≡ url_error)) × (reply ≡ rejected 502))
      ⊎ ((((outcome ≡ other_error) ⊎ ((j : Json F) × (outcome ≡ answered j) × Unreadable fl j))
            × (reply ≡ rejected 500))
          ⊎ ((j : Json F) × (d : Dict String (Json F)) × (r : IncidentIoCreateResponse) × (outcome
                ≡ answered j)
              × IncidentIn fl j d
              × ReadFrom d r
              × (reply ≡ replied 200 r)
              × (get "mode" request.payload ≡ some r.mode)
              × (r.mode == "" ≡ false)))

  answer-Answered :
      (now_ms : ℕ) (body : IncidentIoServiceRequest) (outcome : Outcome F)
      → Answered
          (outgoing tools (incident_io_service_payload tools now_ms body))
          outcome
          (answer_with tools fl send (loaded tools fl send outcome))
  unfolding outgoing incident_io_service_payload get
  answer-Answered now_ms body http_error = inl (inl refl, refl)
  answer-Answered now_ms body url_error = inl (inr refl, refl)
  answer-Answered now_ms body other_error = inr (inl (inl refl, refl))
  answer-Answered now_ms body (answered j) = elim (created-cases j) [
    | inr (e, bad) ↦ inr (inl (inr (j, refl, bad), rw (answer_with, e) refl))
    | inl (d, r, e, here, fields, same) ↦ inr (
        inr (
          j,
          d,
          r,
          refl,
          here,
          fields,
          rw (answer_with, e) refl,
          ap some (sym same),
          subst (λ mode. mode == "" ≡ false) (sym same) mode_of_environment-nonempty,
        ))
  ]

  -- What a request must look like.
  abbrev pub is_well_formed : IncidentIoServiceRequest → Bool
  is_well_formed body =
      ltb 0 (tools.size body.service)
      && (not (ltb 80 (tools.size body.service))
          && ((body.status == "degraded" || body.status == "down" || body.status == "maintenance")
              && elim body.summary [ none ↦ true | some t ↦ not (ltb 1000 (tools.size t)) ]))

  is_request-is_well_formed :
      (body : IncidentIoServiceRequest) → is_request tools body ≡ is_well_formed body
  unfolding is_request
  is_request-is_well_formed body = ground arith

  -- The key without the blanks around it.
  abbrev pub key : String
  key = tools.strip (present (tools.getenv "INCIDENT_IO_API_KEY") "")

  -- A malformed request is answered by 422 and, without a key that is not blank, any other by 503;
  -- nothing is sent then. Else one request is sent, with the key, to the configured address. Where
  -- incident.io refuses it or cannot be reached, and only there, the answer is 502. It is 500 where
  -- another exception comes up, or what was answered is no object, or its incident is neither falsy nor
  -- an object, or the incident's identifier is no text, or its reference or permalink neither a text
  -- nor null. Else it is 200, with the identifier, reference and permalink of the incident that was
  -- answered and with the mode that was sent, which is not empty.
  pub create_incident-outcomes :
      (now_ms : ℕ) (body : IncidentIoServiceRequest)
      → ((is_well_formed body ≡ false)
          × (create_incident_io_service_incident tools fl send now_ms body ≡ (rejected 422, [])))
        ⊎ (((is_well_formed body ≡ true)
              × (key == "" ≡ true)
              × (create_incident_io_service_incident tools fl send now_ms body
                  ≡ (rejected 503, [])))
            ⊎ ((is_well_formed body ≡ true)
                × (key == "" ≡ false)
                × ((request : Outgoing) × ((create_incident_io_service_incident tools fl send now_ms
                        body).1
                      ≡ request ∷ [])
                    × (request.api_key ≡ key)
                    × (request.url
                        ≡ tools.strip_slashes
                            (present (tools.getenv "INCIDENT_IO_API_URL") "https://api.incident.io")
                          <> "/v2/incidents")
                    × Answered request
                        (send request)
                        (create_incident_io_service_incident tools fl send now_ms body).0)))
  unfolding create_incident_io_service_incident post_incident_io_json outgoing
  create_incident-outcomes now_ms body =
      let same = sym (is_request-is_well_formed body) in
      elim (Bool-cases (is_request tools body)) [
        | inl fits ↦ elim (Bool-cases (api_key_of_environment tools == "")) [
          | inl blank ↦ inr (inl (same ∙ fits, blank, rw (fits, blank) refl))
          | inr set ↦
              let request = outgoing tools (incident_io_service_payload tools now_ms body) in
              inr (
                inr (
                  same ∙ fits,
                  set,
                  (
                    request,
                    rw (fits, set) refl,
                    refl,
                    refl,
                    rw (fits, set) (answer-Answered now_ms body (send request)),
                  ),
                ))
        ]
        | inr malformed ↦ inl (same ∙ malformed, rw malformed refl)
      ]
