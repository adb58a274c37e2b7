-- ===== src/Diagnosis/Reuse.antt =====
-- What the search for a diagnosis to reuse returns, and what the index keeps.
use mathlib.Core.List.{Mem, mem-cons_of_mem, mem-cons_self, mem-reverse}
use solprobe.Prelude.{
  ◌≡◌, refl, String, true, false, Option, none, some, List, [], ◌∷◌, reverse, arith, if◌then◌else◌,
  ◌==◌, string_eq, option_eq, contains, All, Bool-cases, ◌⊎◌, inl, inr,
}
use solprobe.Prelude.Int.{ℤ, pos, ltb_ℤ}
use solprobe.Prelude.Floats.{Floats}
use solprobe.Prelude.Dict.{Dict, get, keep_items, get-put, get-keep_items}
use solprobe.Models.Diagnoses.{DiagnosisResult}
use solprobe.Diagnosis.Store.{
  DiagnosisStore, is_completed, index_fingerprint, live_ids, reusable, cached_match,
  find_cached_match,
}

module _ {F : Type 0} where
  -- Indexing a fingerprint drops the fingerprints of all diagnoses that the store no longer holds,
  -- keeps those of the others, and sets the given one.
  pub get-index_fingerprint :
      (s : DiagnosisStore F) (diagnosis_id fingerprint j : String)
      → get j (index_fingerprint s diagnosis_id fingerprint).fingerprints ≡ (
          if diagnosis_id == j
          then some fingerprint
          else if contains (live_ids s) j
          then get j s.fingerprints
          else none)
  unfolding index_fingerprint
  get-index_fingerprint s diagnosis_id fingerprint j =
      rw
        (
          get-put diagnosis_id j fingerprint
              (keep_items (λ k _. contains (live_ids s) k) s.fingerprints),
          get-keep_items (λ k. contains (live_ids s) k) j s.fingerprints,
        )
        refl

module _ (fl : Floats) where
  open fl use {F, lt}

  -- The diagnoses that the search looks at, newest first: those before the first that is too old.
  pub young : ℤ → List (DiagnosisResult F) → List (DiagnosisResult F)
  young cutoff_ms [] = []
  young cutoff_ms (d ∷ ds) =
      if ltb_ℤ (pos d.timestamp_ms) cutoff_ms then [] else d ∷ young cutoff_ms ds

  abbrev pub Found :
      Dict String String
      → String
      → ℤ
      → F
      → List (DiagnosisResult F)
      → Option (DiagnosisResult F)
      → Type 0
  Found fingerprints fingerprint cutoff_ms min_confidence ds r =
      ((r ≡ none)
        × All (λ d. reusable fl fingerprints fingerprint min_confidence d ≡ false)
            (young cutoff_ms ds))
      ⊎ ((d : DiagnosisResult F) × (r ≡ some d)
          × Mem d ds
          × (ltb_ℤ (pos d.timestamp_ms) cutoff_ms ≡ false)
          × (reusable fl fingerprints fingerprint min_confidence d ≡ true))

  cached_match-Found :
      (fingerprints : Dict String String) (fingerprint : String) (cutoff_ms : ℤ)
      (min_confidence : F) (ds : List (DiagnosisResult F))
      → Found fingerprints fingerprint cutoff_ms min_confidence ds
          (cached_match fl fingerprints fingerprint cutoff_ms min_confidence ds)
  unfolding cached_match young
  cached_match-Found fingerprints fingerprint cutoff_ms min_confidence [] = inl (refl, tt)
  cached_match-Found fingerprints fingerprint cutoff_ms min_confidence (d ∷ ds) =
      elim (Bool-cases (ltb_ℤ (pos d.timestamp_ms) cutoff_ms)) [
        | inl old ↦ inl (rw old refl, rw old tt)
        | inr fresh ↦ elim (Bool-cases (reusable fl fingerprints fingerprint min_confidence d)) [
          | inl hit ↦ inr (d, rw (fresh, hit) refl, mem-cons_self, fresh, hit)
          | inr miss ↦
              elim (cached_match-Found fingerprints fingerprint cutoff_ms min_confidence ds) [
                | inl (nothing, all) ↦ inl (rw (fresh, miss) nothing, rw fresh (miss, all))
                | inr (e, found, here, young_e, hit) ↦
                    inr (e, rw (fresh, miss) found, mem-cons_of_mem _ here, young_e, hit)
              ]
        ]
      ]

  reusable-parts :
      (fingerprints : Dict String String) (fingerprint : String) (min_confidence : F)
      (d : DiagnosisResult F)
      → reusable fl fingerprints fingerprint min_confidence d ≡ true
      → (is_completed d.status ≡ true)
        × (lt d.confidence min_confidence ≡ false)
        × (get d.diagnosis_id fingerprints == some fingerprint ≡ true)
  unfolding reusable
  reusable-parts fingerprints fingerprint min_confidence d h = ground arith

  -- The search returns a completed diagnosis of the store that is young and confident enough and
  -- carries the fingerprint, or it returns none and no diagnosis newer than the first one that is too
  -- old could be reused.
  pub find_cached_match_lem :
      (s : DiagnosisStore F) (fingerprint : String) (cutoff_ms : ℤ) (min_confidence : F)
      → ((find_cached_match fl s fingerprint cutoff_ms min_confidence ≡ none)
          × All
              (λ d. reusable fl s.fingerprints fingerprint min_confidence d ≡ false)
              (young cutoff_ms (reverse s.diagnoses)))
        ⊎ ((d : DiagnosisResult F) × (find_cached_match fl s fingerprint cutoff_ms min_confidence
              ≡ some d)
            × Mem d s.diagnoses
            × (ltb_ℤ (pos d.timestamp_ms) cutoff_ms ≡ false)
            × (is_completed d.status ≡ true)
            × (lt d.confidence min_confidence ≡ false)
            × (get d.diagnosis_id s.fingerprints == some fingerprint ≡ true))
  unfolding find_cached_match
  find_cached_match_lem s fingerprint cutoff_ms min_confidence =
      elim (cached_match-Found s.fingerprints fingerprint cutoff_ms min_confidence
        (reverse s.diagnoses)) [
          | inl nothing ↦ inl nothing
          | inr (d, found, here, fresh, hit) ↦
              let (done, sure, marked) =
                reusable-parts s.fingerprints fingerprint min_confidence d hit in
              inr (d, found, mem-reverse.0 here, fresh, done, sure, marked)
        ]
