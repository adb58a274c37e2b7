-- ===== src/Routes/IncidentIo/Answers.antt =====
-- What an answer of incident.io says, described apart from how the handler reads it.
use solprobe.Prelude.{
  String, Bool, true, false, not, ◌≡◌, refl, Option, none, some, List, [], ◌∷◌, ◌==◌, string_eq,
  Bool-cases, ◌⊎◌, inl, inr,
}
use solprobe.Prelude.Int.{pos}
use solprobe.Prelude.Floats.{Floats}
use solprobe.Prelude.Dict.{Dict, get}
use solprobe.Models.Json.{
  Json, Members, null, flag, number, text, array, object, elements, members, nil, cons,
}
use solprobe.Routes.IncidentIo.{
  Tools, IncidentIoCreateResponse, Outgoing, Outcome, fields_of_incident, incident_of, identifier,
  optional_text,
}

abbrev is_empty {ℓ} : {A : Type ℓ} → List A → Bool
is_empty [] = true
is_empty (x ∷ xs) = false

module _ {F : Type 0} where
  abbrev is_object : Json F → Bool
  is_object (object ms) = true
  is_object _ = false

  abbrev is_text : Json F → Bool
  is_text (text s) = true
  is_text _ = false

  abbrev is_null : Json F → Bool
  is_null null = true
  is_null _ = false

  -- A text, or nothing or null for no text.
  abbrev pub IsOptional : Option (Json F) → Option String → Type 0
  IsOptional given t =
      (((given ≡ none) ⊎ (given ≡ some null)) × (t ≡ none))
      ⊎ ((s : String) × (given ≡ some (text s)) × (t ≡ some s))

  abbrev pub IsIdentifier : Option (Json F) → String → Type 0
  IsIdentifier given t = ((given ≡ none) × (t ≡ "")) ⊎ (given ≡ some (text t))

  -- The fields of a reply are those of an incident.
  abbrev pub ReadFrom : Dict String (Json F) → IncidentIoCreateResponse → Type 0
  ReadFrom d r =
      IsIdentifier (get "id" d) r.incident_id
      × IsOptional (get "reference" d) r.reference
      × IsOptional (get "permalink" d) r.permalink

  abbrev pub BadIdentifier : Option (Json F) → Type 0
  BadIdentifier given = (v : Json F) × (given ≡ some v) × (is_text v ≡ false)

  abbrev pub BadOptional : Option (Json F) → Type 0
  BadOptional given = (v : Json F) × (given ≡ some v) × (is_text v ≡ false) × (is_null v ≡ false)

module _ (fl : Floats) where
  open fl use {F, eq, literal}

  -- What counts as false.
  abbrev is_falsy : Json F → Bool
  is_falsy null = true
  is_falsy (flag b) = not b
  is_falsy (number x) = eq x (literal (pos 0) 1)
  is_falsy (text s) = s == ""
  is_falsy (array xs) = is_empty (elements xs)
  is_falsy (object ms) = is_empty (members ms)

  -- The incident of an answer: empty if there is none or a falsy one.
  abbrev pub IncidentIn : Json F → Dict String (Json F) → Type 0
  IncidentIn j d =
      (ms : Members F) × (j ≡ object ms)
      × (((get "incident" (members ms) ≡ none) × (d ≡ []))
          ⊎ ((v : Json F) × (get "incident" (members ms) ≡ some v)
              × (((is_falsy v ≡ true) × (d ≡ []))
                  ⊎ ((fields : Members F) × (v ≡ object fields) × (d ≡ members fields)))))

  abbrev pub NoIncident : Json F → Type 0
  NoIncident j =
      (is_object j ≡ false)
      ⊎ ((ms : Members F) × (v : Json F) × (j ≡ object ms)
          × (get "incident" (members ms) ≡ some v)
          × (is_falsy v ≡ false)
          × (is_object v ≡ false))

  abbrev pub Unreadable : Json F → Type 0
  Unreadable j =
      NoIncident j
      ⊎ ((d : Dict String (Json F)) × IncidentIn j d
          × (BadIdentifier (get "id" d)
              ⊎ (BadOptional (get "reference" d) ⊎ BadOptional (get "permalink" d))))

module _ (fl : Floats) (tools : Tools) (send : Outgoing → Outcome fl.F) where
  open fl use {F, eq, literal}

  pub identifier-cases :
      (o : Option (Json F))
      → ((t : String) × (identifier tools fl send o ≡ some t) × IsIdentifier o t)
        ⊎ ((identifier tools fl send o ≡ none) × BadIdentifier o)
  identifier-cases none = inl ("", refl, inl (refl, refl))
  identifier-cases (some (text s)) = inl (s, refl, inr refl)
  identifier-cases (some null) = inr (refl, (null, refl, refl))
  identifier-cases (some (flag b)) = inr (refl, (flag b, refl, refl))
  identifier-cases (some (number x)) = inr (refl, (number x, refl, refl))
  identifier-cases (some (array xs)) = inr (refl, (array xs, refl, refl))
  identifier-cases (some (object ms)) = inr (refl, (object ms, refl, refl))

  pub optional_text-cases :
      (o : Option (Json F))
      → ((t : Option String) × (optional_text tools fl send o ≡ some t) × IsOptional o t)
        ⊎ ((optional_text tools fl send o ≡ none) × BadOptional o)
  optional_text-cases none = inl (none, refl, inl (inl refl, refl))
  optional_text-cases (some (text s)) = inl (some s, refl, inr (s, refl, refl))
  optional_text-cases (some null) = inl (none, refl, inl (inr refl, refl))
  optional_text-cases (some (flag b)) = inr (refl, (flag b, refl, refl, refl))
  optional_text-cases (some (number x)) = inr (refl, (number x, refl, refl, refl))
  optional_text-cases (some (array xs)) = inr (refl, (array xs, refl, refl, refl))
  optional_text-cases (some (object ms)) = inr (refl, (object ms, refl, refl, refl))

  -- What the handler takes for the incident.
  abbrev Taken : Option (Json F) → Type 0
  Taken o =
      ((d : Dict String (Json F)) × (fields_of_incident tools fl send o ≡ some d)
        × (((o ≡ none) × (d ≡ []))
            ⊎ ((v : Json F) × (o ≡ some v)
                × (((is_falsy fl v ≡ true) × (d ≡ []))
                    ⊎ ((fields : Members F) × (v ≡ object fields) × (d ≡ members fields))))))
      ⊎ ((fields_of_incident tools fl send o ≡ none)
          × ((v : Json F) × (o ≡ some v) × (is_falsy fl v ≡ false) × (is_object v ≡ false)))

  fields-Taken : (o : Option (Json F)) → Taken o
  fields-Taken none = inl ([], refl, inl (refl, refl))
  fields-Taken (some null) = inl ([], refl, inr (null, refl, inl (refl, refl)))
  fields-Taken (some (flag true)) = inr (refl, (flag true, refl, refl, refl))
  fields-Taken (some (flag false)) = inl ([], refl, inr (flag false, refl, inl (refl, refl)))
  fields-Taken (some (number x)) = elim (Bool-cases (eq x (literal (pos 0) 1))) [
    | inl zero ↦ inl ([], rw zero refl, inr (number x, refl, inl (zero, refl)))
    | inr other ↦ inr (rw other refl, (number x, refl, other, refl))
  ]
  fields-Taken (some (text s)) = elim (Bool-cases (s == "")) [
    | inl empty ↦ inl ([], rw empty refl, inr (text s, refl, inl (empty, refl)))
    | inr full ↦ inr (rw full refl, (text s, refl, full, refl))
  ]
  fields-Taken (some (array nil)) = inl ([], refl, inr (array nil, refl, inl (refl, refl)))
  fields-Taken (some (array (cons x xs))) = inr (refl, (array (cons x xs), refl, refl, refl))
  fields-Taken (some (object ms)) =
      inl (members ms, refl, inr (object ms, refl, inr (ms, refl, refl)))

  pub incident_of-cases :
      (j : Json F)
      → ((d : Dict String (Json F)) × (incident_of tools fl send j ≡ some d) × IncidentIn fl j d)
        ⊎ ((incident_of tools fl send j ≡ none) × NoIncident fl j)
  incident_of-cases (object ms) = elim (fields-Taken (get "incident" (members ms))) [
    | inl (d, e, from) ↦ inl (d, e, (ms, refl, from))
    | inr (e, (v, there, truthy, other)) ↦ inr (e, inr (ms, v, refl, there, truthy, other))
  ]
  incident_of-cases null = inr (refl, inl refl)
  incident_of-cases (flag b) = inr (refl, inl refl)
  incident_of-cases (number x) = inr (refl, inl refl)
  incident_of-cases (text s) = inr (refl, inl refl)
  incident_of-cases (array xs) = inr (refl, inl refl)
