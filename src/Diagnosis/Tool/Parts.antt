-- ===== src/Diagnosis/Tool/Parts.antt =====
-- The parts of a response that follow their schemas, and what is read of them.
use solprobe.Prelude.{
  ◌≡◌, refl, ◌∙◌, sym, arith, String, Bool, true, ◌&&◌, false≢true, Option, none, some, List, [],
  ◌∷◌, is_some, contains, string_eq, Bool-cases, inl, inr, ◌==◌,
}
use solprobe.Prelude.Int.{pos}
use solprobe.Prelude.Floats.{Floats}
use solprobe.Prelude.Dict.{Dict, get}
use solprobe.Models.Json.{Json, null, flag, number, text, array, object, Members, elements, members}
use solprobe.Models.Diagnoses.{RecommendedAction, EvidenceItem, Urgency, immediate, soon, monitor}
use solprobe.Diagnosis.Actions.{valid_action_ids}
use solprobe.Diagnosis.Agent.Parsing.{
  Reader, as_text, as_urgency, params_of, text_or_empty, recommended, missing_action_fields,
  evidence_item, evidence_items, evidence_chain,
}
use solprobe.Diagnosis.Tool.{
  evidence_schema, action_schema, conforms, if_there, has_all, is_one_of, all_elements, array_of,
  any_text, between, object_of, one_of, no_more,
}

pub both : (a b : Bool) → (a && b) ≡ true → (a ≡ true) × (b ≡ true)
both a b h = ground arith

abbrev pub urgencies : List String
urgencies = "immediate" ∷ "soon" ∷ "monitor" ∷ []

pub as_urgency-chosen :
    (t : String)
    → contains ("immediate" ∷ "soon" ∷ "monitor" ∷ []) t ≡ true
    → (u : Urgency) × (as_urgency t ≡ some u)
as_urgency-chosen t h = elim (Bool-cases (t == "immediate")) [
  | inl e ↦ (immediate, rw e refl)
  | inr e1 ↦ elim (Bool-cases (t == "soon")) [
    | inl e ↦ (soon, rw (e1, e) refl)
    | inr e2 ↦ elim (Bool-cases (t == "monitor")) [
      | inl e ↦ (monitor, rw (e1, e2, e) refl)
      | inr e3 ↦ absurd (false≢true (sym (rw (e1, e2, e3) refl) ∙ h))
    ]
  ]
]

module _ (fl : Floats) where
  open fl use {F, le, literal}

  -- The first of the required properties is there and follows its schema.
  pub taken :
      (test : Json F → Bool) (o : Option (Json F)) (a b : Bool)
      → (is_some o && a) ≡ true
      → (if_there fl test o && b) ≡ true
      → (v : Json F) × (o ≡ some v) × (test v ≡ true) × (a ≡ true) × (b ≡ true)
  taken test none a b h t = absurd (false≢true h)
  taken test (some v) a b h t = let (first, rest) = both (test v) b t in (v, refl, first, h, rest)

  pub chosen :
      (values : List String) (o : Option String)
      → is_one_of fl values o ≡ true
      → (t : String) × (o ≡ some t) × (contains values t ≡ true)
  chosen values none h = absurd (false≢true h)
  chosen values (some t) h = (t, refl, h)

  pub params_of-object :
      (v : Json F)
      → conforms fl (object_of [] no_more) v ≡ true
      → (d : Dict String (Json F)) × (params_of (some v) ≡ some d)
  unfolding conforms
  params_of-object (object ms) h = (members ms, refl)
  params_of-object null h = absurd (false≢true h)
  params_of-object (flag b) h = absurd (false≢true h)
  params_of-object (number x) h = absurd (false≢true h)
  params_of-object (text s) h = absurd (false≢true h)
  params_of-object (array xs) h = absurd (false≢true h)

  pub some_text : (o : Option String) → is_some o ≡ true → (t : String) × (o ≡ some t)
  some_text none h = absurd (false≢true h)
  some_text (some t) h = (t, refl)

  pub recommended-eq :
      (ms : Members F) {action params urgency : Json F} {t ut : String} {ps : Dict String (Json F)}
      {u : Urgency}
      → get "action" (members ms) ≡ some action
      → as_text action ≡ some t
      → get "params" (members ms) ≡ some params
      → params_of (some params) ≡ some ps
      → get "urgency" (members ms) ≡ some urgency
      → as_text urgency ≡ some ut
      → as_urgency ut ≡ some u
      → recommended (object ms) ≡ some (record { action = t; params = ps; urgency = u })
  unfolding recommended
  recommended-eq ms e1 e2 e3 e4 e5 e6 e7 = rw (e1, e2, e3, e4, e5, e6, e7) refl

  pub missing_action_fields-eq :
      (reader : Reader F) (ms : Members F) {action urgency : Json F}
      → get "action" (members ms) ≡ some action
      → get "urgency" (members ms) ≡ some urgency
      → missing_action_fields reader (object ms) ("action" ∷ "urgency" ∷ []) ≡ some []
  unfolding missing_action_fields
  missing_action_fields-eq reader ms e1 e2 = rw (e1, e2) refl

  pub text_or_empty-eq :
      (d : Dict String (Json F)) (key : String) {v : Json F} {t : String}
      → get key d ≡ some v
      → as_text v ≡ some t
      → text_or_empty d key ≡ some t
  text_or_empty-eq d key e e' = rw (text_or_empty, e) e'

  pub evidence_item-eq :
      (ms : Members F) {metric value context : Json F} {m v c : String}
      → get "metric" (members ms) ≡ some metric
      → as_text metric ≡ some m
      → get "value" (members ms) ≡ some value
      → as_text value ≡ some v
      → get "context" (members ms) ≡ some context
      → as_text context ≡ some c
      → evidence_item (object ms) ≡ some (record { metric = m; value = v; context = c })
  unfolding evidence_item get
  evidence_item-eq ms e1 e2 e3 e4 e5 e6 =
      rw
        (
          text_or_empty-eq (members ms) "metric" e1 e2,
          text_or_empty-eq (members ms) "value" e3 e4,
          text_or_empty-eq (members ms) "context" e5 e6,
        )
        refl

  pub evidence_items-eq :
      (x : Json F) (xs : List (Json F)) {item : EvidenceItem} {items : List EvidenceItem}
      → evidence_item x ≡ some item
      → evidence_items xs ≡ some items
      → evidence_items (x ∷ xs) ≡ some (item ∷ items)
  unfolding evidence_items
  evidence_items-eq x xs e e' = cc (e, e')

  -- What is read of an action that follows its schema.
  abbrev pub ActionRead : Reader F → Json F → Type 0
  ActionRead reader v =
      (a : RecommendedAction F) × (recommended v ≡ some a)
      × (contains valid_action_ids a.action ≡ true)
      × (missing_action_fields reader v ("action" ∷ "urgency" ∷ []) ≡ some [])

  pub action-ActionRead :
      (reader : Reader F) (v : Json F) → conforms fl action_schema v ≡ true → ActionRead reader v
  unfolding conforms
  action-ActionRead reader (object ms) h =
      let d = members ms in
      let (keys, values) = both (has_all fl ("action" ∷ "params" ∷ "urgency" ∷ []) d) _ h in
      let (action, at_action, is_action, keys1, values1) =
        taken (conforms fl (one_of valid_action_ids)) (get "action" d) _ _ keys values in
      let (params, at_params, is_params, keys2, values2) =
        taken (conforms fl (object_of [] no_more)) (get "params" d) _ _ keys1 values1 in
      let (urgency, at_urgency, is_urgency, _, _) =
        taken (conforms fl (one_of urgencies)) (get "urgency" d) _ _ keys2 values2 in
      let (t, text_of_action, known) = chosen valid_action_ids (as_text action) is_action in
      let (ps, read_params) = params_of-object params is_params in
      let (ut, text_of_urgency, known_urgency) = chosen urgencies (as_text urgency) is_urgency in
      let (u, read_urgency) = as_urgency-chosen ut known_urgency in
      let a : RecommendedAction F = record { action = t; params = ps; urgency = u } in
      (
        a,
        recommended-eq ms at_action text_of_action at_params read_params at_urgency text_of_urgency
            read_urgency,
        known,
        missing_action_fields-eq reader ms at_action at_urgency,
      )
  action-ActionRead reader null h = absurd (false≢true h)
  action-ActionRead reader (flag b) h = absurd (false≢true h)
  action-ActionRead reader (number x) h = absurd (false≢true h)
  action-ActionRead reader (text s) h = absurd (false≢true h)
  action-ActionRead reader (array xs) h = absurd (false≢true h)

  pub evidence_item-conforming :
      (v : Json F)
      → conforms fl evidence_schema v ≡ true
      → (item : EvidenceItem) × (evidence_item v ≡ some item)
  unfolding conforms
  evidence_item-conforming (object ms) h =
      let d = members ms in
      let (keys, values) = both (has_all fl ("metric" ∷ "value" ∷ "context" ∷ []) d) _ h in
      let (metric, at_metric, is_metric, keys1, values1) =
        taken (conforms fl any_text) (get "metric" d) _ _ keys values in
      let (value, at_value, is_value, keys2, values2) =
        taken (conforms fl any_text) (get "value" d) _ _ keys1 values1 in
      let (context, at_context, is_context, _, _) =
        taken (conforms fl any_text) (get "context" d) _ _ keys2 values2 in
      let (m, text_of_metric) = some_text (as_text metric) is_metric in
      let (v, text_of_value) = some_text (as_text value) is_value in
      let (c, text_of_context) = some_text (as_text context) is_context in
      let item : EvidenceItem = record { metric = m; value = v; context = c } in
      (
        item,
        evidence_item-eq ms at_metric text_of_metric at_value text_of_value at_context
            text_of_context,
      )
  evidence_item-conforming null h = absurd (false≢true h)
  evidence_item-conforming (flag b) h = absurd (false≢true h)
  evidence_item-conforming (number x) h = absurd (false≢true h)
  evidence_item-conforming (text s) h = absurd (false≢true h)
  evidence_item-conforming (array xs) h = absurd (false≢true h)

  pub evidence_items-conforming :
      (vs : List (Json F))
      → all_elements fl (conforms fl evidence_schema) vs ≡ true
      → (items : List EvidenceItem) × (evidence_items vs ≡ some items)
  unfolding evidence_items
  evidence_items-conforming [] h = ([], refl)
  evidence_items-conforming (v ∷ vs) h =
      let (first, rest) = both (conforms fl evidence_schema v) _ h in
      let (item, read) = evidence_item-conforming v first in
      let (items, read') = evidence_items-conforming vs rest in
      (item ∷ items, evidence_items-eq v vs read read')

  pub evidence_chain-conforming :
      (v : Json F)
      → conforms fl (array_of evidence_schema) v ≡ true
      → (items : List EvidenceItem) × (evidence_chain v ≡ some items)
  unfolding conforms evidence_chain
  evidence_chain-conforming (array xs) h = evidence_items-conforming (elements xs) h
  evidence_chain-conforming null h = absurd (false≢true h)
  evidence_chain-conforming (flag b) h = absurd (false≢true h)
  evidence_chain-conforming (number x) h = absurd (false≢true h)
  evidence_chain-conforming (text s) h = absurd (false≢true h)
  evidence_chain-conforming (object ms) h = absurd (false≢true h)

  pub confidence-conforming :
      (v : Json F)
      → conforms fl (between (literal (pos 0) 1) (literal (pos 10) 1)) v ≡ true
      → (x : F) × (v ≡ number x)
        × (le (literal (pos 0) 1) x ≡ true)
        × (le x (literal (pos 10) 1) ≡ true)
  unfolding conforms
  confidence-conforming (number x) h =
      let (low, high) = both (le (literal (pos 0) 1) x) _ h in (x, refl, low, high)
  confidence-conforming null h = absurd (false≢true h)
  confidence-conforming (flag b) h = absurd (false≢true h)
  confidence-conforming (text s) h = absurd (false≢true h)
  confidence-conforming (array xs) h = absurd (false≢true h)
  confidence-conforming (object ms) h = absurd (false≢true h)
