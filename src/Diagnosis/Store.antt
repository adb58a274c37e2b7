-- ===== src/Diagnosis/Store.antt =====
-- backend/app/diagnosis/store.py: the bounded store of diagnoses and its index of fingerprints,
-- over the floating point numbers `fl`.
use solprobe.Prelude.{
  ℕ, String, Bool, true, false, ◌&&◌, Option, none, some, List, [], ◌∷◌, map, reverse, length,
  if◌then◌else◌, ◌==◌, string_eq, option_eq, contains,
}
use solprobe.Prelude.Int.{ℤ, pos, ltb_ℤ}
use solprobe.Prelude.Floats.{Floats}
use solprobe.Prelude.Dict.{Dict, get, put, keep_items}
use solprobe.Prelude.Ring.{push}
use solprobe.Prelude.Search.{collect}
use solprobe.Models.Diagnoses.{DiagnosisResult, Status, completed, failed, rate_limited, cached}
use solprobe.Stores.Alerts.{passes}

abbrev pub max_diagnoses : ℕ
max_diagnoses = 500

pub record DiagnosisStore (F : Type 0) : Type 0 where
  pub diagnoses : List (DiagnosisResult F)
  pub fingerprints : Dict String String
  pub max_size : ℕ

-- `status == "completed"`, and `status in ("completed", "cached")`
unfoldable pub is_completed : Status → Bool
is_completed completed = true
is_completed failed = false
is_completed rate_limited = false
is_completed cached = false

unfoldable pub is_usable : Status → Bool
is_usable completed = true
is_usable failed = false
is_usable rate_limited = false
is_usable cached = true

module _ {F : Type 0} where
  unfoldable pub add : DiagnosisStore F → DiagnosisResult F → DiagnosisStore F
  unfolding push
  add s d = record s { diagnoses = push s.max_size s.diagnoses d }

  -- `for d in ...: if test(d): return d`, then `return None`
  unfoldable pub first_with :
      (DiagnosisResult F → Bool) → List (DiagnosisResult F) → Option (DiagnosisResult F)
  first_with test [] = none
  first_with test (d ∷ ds) = if test d then some d else first_with test ds

  unfoldable pub get_by_id : DiagnosisStore F → String → Option (DiagnosisResult F)
  unfolding first_with
  get_by_id s diagnosis_id = first_with (λ d. d.diagnosis_id == diagnosis_id) (reverse s.diagnoses)

  unfoldable pub get_by_alert_id : DiagnosisStore F → String → Option (DiagnosisResult F)
  unfolding first_with
  get_by_alert_id s alert_id = first_with (λ d. d.alert_id == alert_id) (reverse s.diagnoses)

  unfoldable pub query :
      DiagnosisStore F → Option String → Option String → ℕ → List (DiagnosisResult F)
  unfolding passes collect
  query s node_id root_cause limit =
      collect (λ d. passes node_id d.node_id && passes root_cause d.root_cause) limit []
        (reverse s.diagnoses)

  unfoldable pub find_similar : DiagnosisStore F → String → ℕ → List (DiagnosisResult F)
  unfolding is_usable collect
  find_similar s alert_type limit =
      collect (λ d. is_usable d.status && d.alert_type == alert_type) limit [] (reverse s.diagnoses)

  -- the identifiers of the diagnoses that the store holds
  unfoldable pub live_ids : DiagnosisStore F → List String
  live_ids s = map (λ d. d.diagnosis_id) s.diagnoses

  unfoldable pub index_fingerprint : DiagnosisStore F → String → String → DiagnosisStore F
  unfolding keep_items live_ids put
  index_fingerprint s diagnosis_id fingerprint = record s {
    fingerprints =
        put diagnosis_id fingerprint (keep_items (λ k _. contains (live_ids s) k) s.fingerprints);
  }

  unfoldable pub count : DiagnosisStore F → ℕ
  count s = length s.diagnoses

module _ (fl : Floats) where
  open fl use {F, lt}

  -- what the loop asks of a diagnosis, once it is young enough
  unfoldable pub reusable : Dict String String → String → F → DiagnosisResult F → Bool
  unfolding is_completed get
  reusable fingerprints fingerprint min_confidence d =
      if is_completed d.status
      then if lt d.confidence min_confidence
        then false
        else get d.diagnosis_id fingerprints == some fingerprint
      else false

  -- The loop, newest first: it gives up at the first diagnosis that is too old.
  unfoldable pub cached_match :
      Dict String String → String → ℤ → F → List (DiagnosisResult F) → Option (DiagnosisResult F)
  unfolding reusable
  cached_match fingerprints fingerprint cutoff_ms min_confidence [] = none
  cached_match fingerprints fingerprint cutoff_ms min_confidence (d ∷ ds) =
      if ltb_ℤ (pos d.timestamp_ms) cutoff_ms
      then none
      else if reusable fingerprints fingerprint min_confidence d
      then some d
      else cached_match fingerprints fingerprint cutoff_ms min_confidence ds

  -- `cutoff_ms` is the clock less `max_age_ms`.
  unfoldable pub find_cached_match : DiagnosisStore F → String → ℤ → F → Option (DiagnosisResult F)
  unfolding cached_match
  find_cached_match s fingerprint cutoff_ms min_confidence =
      cached_match s.fingerprints fingerprint cutoff_ms min_confidence (reverse s.diagnoses)
