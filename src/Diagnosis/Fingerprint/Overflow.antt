-- ===== src/Diagnosis/Fingerprint/Overflow.antt =====
-- When the fingerprint of an alert raises.
use solprobe.Prelude.{
  ◌≡◌, refl, ◌∙◌, String, true, none, List, [], ◌∷◌, arith, subst, false≢true, if◌then◌else◌, ◌==◌,
  string_eq, eq_iff, contains, Bool-cases, Option-cases, inl, inr,
}
use solprobe.Prelude.Floats.{Floats}
use solprobe.Prelude.Dict.{Dict, keys}
use solprobe.Models.Alerts.{Alert}
use solprobe.Diagnosis.Fingerprint.{
  Texts, evidence_part, insert_text, sorted, value_at, evidence_parts, alert_fingerprint,
}

module _ (fl : Floats) (texts : Texts fl) where
  open fl use {F}

  contains-insert_text :
      (k : String) (ks : List String) (j : String)
      → contains (insert_text fl texts k ks) j ≡ (if j == k then true else contains ks j)
  unfolding insert_text
  contains-insert_text k [] j = ground arith
  contains-insert_text k (i ∷ ks) j = ground (arith, contains-insert_text k ks j)

  contains-sorted :
      (ks : List String) (j : String) → contains (sorted fl texts ks) j ≡ contains ks j
  unfolding sorted
  contains-sorted [] j = refl
  contains-sorted (k ∷ ks) j =
      ground (arith, contains-sorted ks j, contains-insert_text k (sorted fl texts ks) j)

  evidence_parts-overflow :
      (evidence : Dict String String) (ks : List String) (key : String)
      → contains ks key ≡ true
      → evidence_part fl texts key (value_at fl texts evidence key) ≡ none
      → evidence_parts fl texts evidence ks ≡ none
  unfolding evidence_parts
  evidence_parts-overflow evidence [] key h bad = absurd (false≢true h)
  evidence_parts-overflow evidence (k ∷ ks) key h bad = elim (Bool-cases (key == k)) [
    | inl same ↦
        let here : evidence_part fl texts k (value_at fl texts evidence k) ≡ none =
          subst (λ j. evidence_part fl texts j (value_at fl texts evidence j) ≡ none)
            ((eq_iff key k).0 same) bad in
        rw (here, evidence_parts) refl
    | inr other ↦
        let later : evidence_parts fl texts evidence ks ≡ none =
          evidence_parts-overflow evidence ks key (rw other at h) bad in
        elim (Option-cases (evidence_part fl texts k (value_at fl texts evidence k))) [
          | inl e ↦ rw (e, evidence_parts) refl
          | inr (part, e) ↦ rw (e, later, evidence_parts) refl
        ]
  ]

  -- An alert has no fingerprint, but an exception, if the text of one of its evidence values reads as a
  -- number whose bucket overflows.
  pub alert_fingerprint-overflow :
      (a : Alert F) (key : String)
      → contains (keys a.evidence) key ≡ true
      → evidence_part fl texts key (value_at fl texts a.evidence key) ≡ none
      → alert_fingerprint fl texts a ≡ none
  unfolding alert_fingerprint
  alert_fingerprint-overflow a key h bad =
      let none_there =
        evidence_parts-overflow a.evidence (sorted fl texts (keys a.evidence)) key
          (contains-sorted (keys a.evidence) key ∙ h) bad in
      rw (none_there, alert_fingerprint) refl
