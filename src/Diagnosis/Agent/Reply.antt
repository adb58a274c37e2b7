-- ===== src/Diagnosis/Agent/Reply.antt =====
-- A diagnosis of the model is given again: backend/app/diagnosis/agent.py with the store of
-- backend/app/diagnosis/store.py.
use mathlib.Core.List.{reverse-append}
use solprobe.Prelude.{
  ℕ, ◌-◌, ◌≤◌, ◌≡◌, refl, ap, ◌∙◌, ◌<◌, String, Bool, true, false, some, List, [], ◌∷◌, ◌++◌,
  reverse, drop, length, drop-append, length-append, arith, string_eq, option_eq, beq_refl,
}
use solprobe.Prelude.Int.{ℤ, pos, sub_ℕ, ltb_ℤ}
use solprobe.Prelude.Floats.{Floats}
use solprobe.Prelude.Dict.{Dict, get, get-put_self}
use solprobe.Prelude.Ring.{push, take_last}
use solprobe.Models.Alerts.{Alert}
use solprobe.Models.Diagnoses.{DiagnosisResult}
use solprobe.Stores.World.{World}
use solprobe.Diagnosis.Fingerprint.{alert_fingerprint}
use solprobe.Diagnosis.Store.{
  DiagnosisStore, add, index_fingerprint, is_completed, reusable, cached_match, find_cached_match,
}
use solprobe.Diagnosis.Agent.Results.{Readings, validated, clone}
use solprobe.Diagnosis.Agent.Unavailable.{is_stored, is_acceptable-clone}
use solprobe.Diagnosis.Agent.Flow.{Agent, Tools, keep, finish, lookup, diagnose_marked, diagnose}

-- The newest entry of a ring comes first when it is read backwards.
reverse-push :
    {A : Type 0} (m : ℕ) (xs : List A) (x : A)
    → 0 < m
    → (older : List A) × (reverse (push m xs x) ≡ x ∷ older)
unfolding push take_last
reverse-push m xs x h =
    let n : ℕ = length (xs ++ x ∷ []) - m in
    let fits : n ≤ length xs = omega (arith, length-append xs (x ∷ [])) in
    (
      reverse (drop n xs),
      ap reverse (drop-append n xs (x ∷ []) fits) ∙ reverse-append (drop n xs) (x ∷ []),
    )

module _ (fl : Floats) (tools : Tools fl) where
  open fl use {F, lt, literal}
  open tools use {texts}

  cached_match-head :
      (fingerprints : Dict String String) (fingerprint : String) (cutoff_ms : ℤ) (sure : F)
      (d : DiagnosisResult F) (older : List (DiagnosisResult F))
      → ltb_ℤ (pos d.timestamp_ms) cutoff_ms ≡ false
      → is_completed d.status ≡ true
      → lt d.confidence sure ≡ false
      → get d.diagnosis_id fingerprints ≡ some fingerprint
      → cached_match fl fingerprints fingerprint cutoff_ms sure (d ∷ older) ≡ some d
  unfolding cached_match reusable
  cached_match-head fingerprints fingerprint cutoff_ms sure d older fresh done confident marked =
      rw (fresh, done, confident, marked, beq_refl fingerprint) refl

  store-finish :
      (agent : Agent fl) (fingerprint : String) (d : DiagnosisResult F)
      → is_completed d.status ≡ true
      → (finish fl tools agent fingerprint (some d)).1.store
        ≡ index_fingerprint (add agent.store d) d.diagnosis_id fingerprint
  unfolding finish
  store-finish agent fingerprint d done = rw done refl

  -- What was stored and indexed last is found, if it is confident and not too old.
  find_cached_match-index_fingerprint :
      (s : DiagnosisStore F) (fingerprint : String) (cutoff_ms : ℤ) (sure : F)
      (d : DiagnosisResult F)
      → 0 < s.max_size
      → ltb_ℤ (pos d.timestamp_ms) cutoff_ms ≡ false
      → is_completed d.status ≡ true
      → lt d.confidence sure ≡ false
      → find_cached_match fl
          (index_fingerprint (add s d) d.diagnosis_id fingerprint)
          fingerprint
          cutoff_ms
          sure
        ≡ some d
  unfolding find_cached_match index_fingerprint add
  find_cached_match-index_fingerprint s fingerprint cutoff_ms sure d room fresh done confident =
      let (older, order) = reverse-push s.max_size s.diagnoses d room in
      let after = (index_fingerprint (add s d) d.diagnosis_id fingerprint).fingerprints in
      ap (cached_match fl after fingerprint cutoff_ms sure) order
      ∙ cached_match-head after fingerprint cutoff_ms sure d older fresh done confident
          (get-put_self d.diagnosis_id fingerprint _)

  -- A diagnosis that the model completed is given again: after the last step of a call stored and
  -- indexed a completed diagnosis with a confidence of at least 0.7, a call for any alert of the same
  -- fingerprint, at most five minutes after the diagnosis, returns a clone of it, stores the clone and
  -- leaves the limiter, so that the model is not asked. The diagnosis has passed its checks and has an
  -- identifier.
  pub diagnose-finish :
      (agent : Agent fl) (w : World F) (times : Readings F) (diagnosis_id fingerprint : String)
      (alert : Alert F) (bypass_rate_limit : Bool) (d : DiagnosisResult F)
      → alert_fingerprint fl texts alert ≡ some fingerprint
      → 0 < agent.store.max_size
      → is_stored fl tools d ≡ true
      → is_completed d.status ≡ true
      → lt d.confidence (literal (pos 7) 1) ≡ false
      → ltb_ℤ (pos d.timestamp_ms) (sub_ℕ times.lookup_ms 300000) ≡ false
      → diagnose fl tools
          (finish fl tools agent fingerprint (some d)).1
          w
          times
          diagnosis_id
          alert
          bypass_rate_limit
        ≡ (
          some (clone fl times diagnosis_id alert d),
          record (finish fl tools agent fingerprint (some d)).1 {
            store =
                add
                  (finish fl tools agent fingerprint (some d)).1.store
                  (clone fl times diagnosis_id alert d);
          },
        )
  unfolding diagnose diagnose_marked lookup keep validated
  diagnose-finish agent w times diagnosis_id fingerprint alert bypass d e room good done sure
        fresh =
      let cutoff = sub_ℕ times.lookup_ms 300000 in
      let hit : lookup fl tools (finish fl tools agent fingerprint (some d)).1 times fingerprint
          ≡ some d =
        ap (λ s. find_cached_match fl s fingerprint cutoff (literal (pos 7) 1))
          (store-finish agent fingerprint d done)
        ∙ find_cached_match-index_fingerprint agent.store fingerprint cutoff (literal (pos 7) 1) d
            room fresh done sure in
      let acceptable = is_acceptable-clone fl tools times diagnosis_id alert d good in
      rw (e, diagnose, hit, diagnose_marked, acceptable) refl
