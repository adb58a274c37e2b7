-- ===== src/Diagnosis/Fingerprint.antt =====
-- backend/app/diagnosis/fingerprint.py. The functions of Python's library on texts and numbers that
-- it calls are a parameter.
pub mod Overflow
use solprobe.Prelude.{
  String, ◌<>◌, Bool, true, false, Option, none, some, List, [], ◌∷◌, if◌then◌else◌, ◌==◌,
  string_eq,
}
use solprobe.Prelude.Int.{ℤ, pos}
use solprobe.Prelude.Floats.{Floats}
use solprobe.Prelude.Dict.{Dict, get, keys}
use solprobe.Models.Alerts.{Alert}
use solprobe.Detectors.Instability.{join}

-- math.floor(x): a whole number, the `ValueError` of what is not a number, or the `OverflowError` of
-- an infinity.
pub data Floor : Type 0 where
  whole : ℤ → Floor
  not_a_number infinite : Floor

pub record Texts (fl : Floats) : Type 0 where
  -- "xid" in s.lower()
  pub mentions_xid : String → Bool
  -- _NUM_RE.sub("N", s)
  pub mask_numbers : String → String
  -- float(s); `none` is the `ValueError`
  pub parse_float : String → Option fl.F
  -- math.floor(math.log10(x)) for a number that is not too small
  pub floor_log10 : fl.F → Floor
  -- str(i)
  pub show_int : ℤ → String
  -- s <= t
  pub le_text : String → String → Bool
  -- hashlib.sha256(s.encode()).hexdigest()[:16]
  pub digest : String → String

module _ (fl : Floats) (texts : Texts fl) where
  open fl use {F, lt, abs, literal}
  open texts use {mentions_xid, mask_numbers, parse_float, floor_log10, show_int, le_text, digest}

  -- `_magnitude_bucket`
  pub data Bucket : Type 0 where
    bucket : String → Bucket
    value_error overflow_error : Bucket

  abbrev of_floor : Floor → Bucket
  of_floor (whole i) = bucket (show_int i)
  of_floor not_a_number = value_error
  of_floor infinite = overflow_error

  unfoldable pub magnitude_bucket : F → Bucket
  magnitude_bucket value =
      if lt (abs value) (literal (pos 1) 6) then bucket "0" else of_floor (floor_log10 (abs value))

  -- The part of a value once `float` was tried; the handler also takes a `ValueError` of the bucket.
  abbrev part_of_number : String → String → Bucket → Option String
  part_of_number key v (bucket b) = some (key <> "~" <> b)
  part_of_number key v value_error = some (key <> ":" <> mask_numbers v)
  part_of_number key v overflow_error = none

  abbrev part_of_value : String → String → Option F → Option String
  part_of_value key v none = some (key <> ":" <> mask_numbers v)
  part_of_value key v (some x) = part_of_number key v (magnitude_bucket x)

  -- The part of one item of the evidence; `none` is the `OverflowError`.
  unfoldable pub evidence_part : String → String → Option String
  unfolding magnitude_bucket
  evidence_part key v =
      if mentions_xid key then some (key <> "=" <> v) else part_of_value key v (parse_float v)

  -- sorted(keys)
  unfoldable pub insert_text : String → List String → List String
  insert_text k [] = k ∷ []
  insert_text k (j ∷ ks) = if le_text k j then k ∷ j ∷ ks else j ∷ insert_text k ks

  unfoldable pub sorted : List String → List String
  unfolding insert_text
  sorted [] = []
  sorted (k ∷ ks) = insert_text k (sorted ks)

  -- `evidence[key]`, for a key of the evidence
  abbrev pub value_at : Dict String String → String → String
  value_at evidence key = elim (get key evidence) [ none ↦ "" | some v ↦ v ]

  unfoldable pub evidence_parts : Dict String String → List String → Option (List String)
  unfolding evidence_part
  evidence_parts evidence [] = some []
  evidence_parts evidence (key ∷ rest) = elim (evidence_part key (value_at evidence key)) [
    | none ↦ none
    | some part ↦ elim (evidence_parts evidence rest) [
      | none ↦ none
      | some parts ↦ some (part ∷ parts)
    ]
  ]

  -- `none` is an `OverflowError`.
  unfoldable pub alert_fingerprint : Alert F → Option String
  unfolding evidence_parts sorted join
  alert_fingerprint a = elim (evidence_parts a.evidence (sorted (keys a.evidence))) [
    | none ↦ none
    | some parts ↦ some (
        digest
          (join "|" (a.alert_type ∷ a.node_id ∷ a.severity ∷ mask_numbers a.description ∷ parts)))
  ]
