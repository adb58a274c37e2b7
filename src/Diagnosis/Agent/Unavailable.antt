-- ===== src/Diagnosis/Agent/Unavailable.antt =====
-- What the agent of backend/app/diagnosis/agent.py returns when the language model gives no answer.
use solprobe.Prelude.{
  ◌≡◌, refl, String, Bool, true, false, ◌&&◌, Option, none, some, List, [], ◌∷◌, Bool-cases,
  Option-cases, inl, inr, ◌==◌, string_eq, contains, All, arith, ◌⊎◌, append-nonempty, All-Mem, not,
  false≢true, sym, ◌∙◌, subst, option_eq,
}
use solprobe.Prelude.Int.{pos, sub_ℕ}
use solprobe.Prelude.Floats.{Floats}
use solprobe.Models.Alerts.{Alert}
use mathlib.Core.Option.{some-injective, none-ne-some}
use solprobe.Stores.World.{World}
use solprobe.Diagnosis.Fingerprint.{alert_fingerprint}
use mathlib.Core.List.{Mem}
use solprobe.Prelude.Dict.{get}
use solprobe.Diagnosis.Store.{is_usable, is_completed}
use solprobe.Diagnosis.Reuse.{find_cached_match_lem}
use solprobe.Diagnosis.Prompts.{Encoded, encoded, refused}
use solprobe.Diagnosis.Agent.Flow.{
  result_cache_ttl_ms, Agent, Tools, Reply, response, rate_limit_error, timeout_error, api_error,
  other_error, keep, lookup, acquire, conclude, ask, consult, admitted, diagnose_marked, diagnose,
}
use solprobe.Models.Diagnoses.{
  DiagnosisResult, Status, failed, rate_limited, completed, cached, given,
  check_status_error_consistency,
}
use solprobe.Diagnosis.Agent.Results.{
  Readings, is_acceptable, validated, failed_result, make_failed_result, clone,
}
use solprobe.Diagnosis.Agent.Fallback.{
  fallback_types, rule_for, fallback_result, make_llm_unavailable_result,
}

module _ (fl : Floats) where
  open fl use {F, le, literal}

  -- Between 0.0 and 1.0.
  abbrev pub is_share : F → Bool
  is_share x = le (literal (pos 0) 1) x && le x (literal (pos 10) 1)

  -- The confidences that the agent gives itself.
  abbrev pub own_confidences : List F
  own_confidences =
      literal (pos 0) 1
      ∷ literal (pos 78) 2
      ∷ literal (pos 7) 1
      ∷ literal (pos 72) 2
      ∷ literal (pos 76) 2
      ∷ literal (pos 74) 2
      ∷ literal (pos 68) 2
      ∷ literal (pos 66) 2
      ∷ []

  rule_for-is_share :
      (alert : Alert F)
      → All (λ x. is_share x ≡ true) own_confidences
      → is_share (rule_for fl alert).confidence ≡ true
  unfolding rule_for
  rule_for-is_share alert h = ground arith

module _ (fl : Floats) (tools : Tools fl) where
  open fl use {F}
  open tools use {texts}

  abbrev pub Sound : Type 0
  Sound = All (λ x. is_share fl x ≡ true) (own_confidences fl)

  -- A diagnosis with the content of another one, under which it is noted.
  abbrev pub ClonedFrom : DiagnosisResult F → DiagnosisResult F → Type 0
  ClonedFrom e d =
      (d.status ≡ cached)
      × (d.cached_from ≡ some e.diagnosis_id)
      × (d.alert_type ≡ e.alert_type)
      × (d.root_cause ≡ e.root_cause)
      × (d.confidence ≡ e.confidence)
      × (d.reasoning ≡ e.reasoning)
      × (d.evidence_chain ≡ e.evidence_chain)
      × (d.recommended_action ≡ e.recommended_action)

  -- A clone, with the identifier of the alert, of a completed diagnosis of the store that the
  -- fingerprint marks.
  abbrev pub Reused : Agent fl → String → Alert F → DiagnosisResult F → Type 0
  Reused agent fingerprint alert d =
      (e : DiagnosisResult F) × Mem e agent.store.diagnoses
      × (is_completed e.status ≡ true)
      × (get e.diagnosis_id agent.store.fingerprints == some fingerprint ≡ true)
      × (d.alert_id ≡ alert.alert_id)
      × (d.node_id ≡ alert.node_id)
      × ClonedFrom e d

  -- A diagnosis by rule for an alert whose type has one, or a failure with an error text.
  abbrev pub ByRule : Alert F → DiagnosisResult F → Type 0
  ByRule alert d =
      ((d.status ≡ completed)
        × (d.llm_model ≡ "local-fallback")
        × (contains fallback_types alert.alert_type ≡ true)
        × (d.root_cause ≡ (rule_for fl alert).root_cause)
        × (d.confidence ≡ (rule_for fl alert).confidence)
        × (d.recommended_action ≡ (rule_for fl alert).action))
      ⊎ ((is_usable d.status ≡ false) × (given d.error ≡ true))

  abbrev Returned : Alert F → Option (DiagnosisResult F) → Type 0
  Returned alert o = (d : DiagnosisResult F) × (o ≡ some d) × ByRule alert d

  make_failed_result-Returned :
      (model : String) (times : Readings F) (diagnosis_id : String) (alert : Alert F)
      (status : Status) (error : String)
      → Sound
      → is_usable status ≡ false
      → error == "" ≡ false
      → Returned alert (make_failed_result fl model times diagnosis_id alert status error)
  unfolding make_failed_result validated is_acceptable failed_result is_usable
      check_status_error_consistency
  make_failed_result-Returned model times diagnosis_id alert completed error h usable e =
      absurd (false≢true (sym usable))
  make_failed_result-Returned model times diagnosis_id alert cached error h usable e =
      absurd (false≢true (sym usable))
  make_failed_result-Returned model times diagnosis_id alert failed error h usable e = (
    failed_result fl model times diagnosis_id alert failed error,
    rw (h.0, e) refl,
    inr (refl, rw e refl),
  )
  make_failed_result-Returned model times diagnosis_id alert rate_limited error h usable e = (
    failed_result fl model times diagnosis_id alert rate_limited error,
    rw (h.0, e) refl,
    inr (refl, rw e refl),
  )

  make_llm_unavailable_result-Returned :
      (model : String) (times : Readings F) (diagnosis_id : String) (alert : Alert F)
      (status : Status) (error : String)
      → Sound
      → is_usable status ≡ false
      → error == "" ≡ false
      → Returned alert (make_llm_unavailable_result fl model times diagnosis_id alert status error)
  unfolding make_llm_unavailable_result validated is_acceptable fallback_result
      check_status_error_consistency
  make_llm_unavailable_result-Returned model times diagnosis_id alert status error h usable e =
      elim (Bool-cases (contains fallback_types alert.alert_type)) [
        | inl known ↦ (
          fallback_result fl times diagnosis_id alert,
          rw (known, rule_for-is_share fl alert h) refl,
          inl (refl, refl, known, refl, refl, refl),
        )
        | inr other ↦
            let same : make_llm_unavailable_result fl model times diagnosis_id alert status error
                ≡ make_failed_result fl model times diagnosis_id alert status error =
              rw other refl in
            subst (Returned alert) (sym same)
              (make_failed_result-Returned model times diagnosis_id alert status error h usable e)
      ]

  -- The result of a call, whichever agent comes with it.
  abbrev Answers : Alert F → Option (DiagnosisResult F) × Agent fl → Type 0
  Answers alert r = Returned alert r.0

  keep-Answers :
      (agent : Agent fl) (alert : Alert F) (o : Option (DiagnosisResult F))
      → Returned alert o
      → Answers alert (keep fl tools agent o)
  unfolding keep
  keep-Answers agent alert none h = h
  keep-Answers agent alert (some d) h = h

  -- A reply without a response of the model.
  abbrev pub is_error : Reply F → Bool
  is_error (response r) = false
  is_error rate_limit_error = true
  is_error timeout_error = true
  is_error (api_error name) = true
  is_error (other_error name) = true

  conclude-Answers :
      (agent : Agent fl) (times : Readings F) (diagnosis_id fingerprint : String) (alert : Alert F)
      (reply : Reply F)
      → Sound
      → is_error reply ≡ true
      → Answers alert (conclude fl tools agent times diagnosis_id fingerprint alert reply)
  unfolding conclude is_usable
  conclude-Answers agent times diagnosis_id fingerprint alert (response r) h e =
      absurd (false≢true e)
  conclude-Answers agent times diagnosis_id fingerprint alert rate_limit_error h e =
      keep-Answers agent alert _ (
        make_llm_unavailable_result-Returned agent.model times diagnosis_id alert failed _ h refl
          refl)
  conclude-Answers agent times diagnosis_id fingerprint alert timeout_error h e =
      keep-Answers agent alert _ (
        make_llm_unavailable_result-Returned agent.model times diagnosis_id alert failed _ h refl
          refl)
  conclude-Answers agent times diagnosis_id fingerprint alert (api_error name) h e =
      keep-Answers agent alert _ (
        make_llm_unavailable_result-Returned agent.model times diagnosis_id alert failed _ h refl
          (append-nonempty "LLM API error: " name refl))
  conclude-Answers agent times diagnosis_id fingerprint alert (other_error name) h e =
      keep-Answers agent alert _ (
        make_llm_unavailable_result-Returned agent.model times diagnosis_id alert failed _ h refl
          (append-nonempty "Unexpected LLM error: " name refl))

  ask-Answers :
      (agent : Agent fl) (times : Readings F) (diagnosis_id fingerprint : String) (alert : Alert F)
      (call : String → String → Reply F) (message : Encoded String)
      → Sound
      → ((m u : String) → is_error (call m u) ≡ true)
      → Answers alert (ask fl tools agent times diagnosis_id fingerprint alert call message)
  unfolding ask is_usable
  ask-Answers agent times diagnosis_id fingerprint alert call (refused name) h silent =
      keep-Answers agent alert _ (
        make_failed_result-Returned agent.model times diagnosis_id alert failed _ h refl
          (append-nonempty "Context preparation failed: " name refl))
  ask-Answers agent times diagnosis_id fingerprint alert call (encoded message) h silent =
      conclude-Answers agent times diagnosis_id fingerprint alert (call agent.model message) h
        (silent agent.model message)

  -- Whether the model never answers: there is no client, or each call of it ends in an error.
  abbrev pub Silent : Option (String → String → Reply F) → Type 0
  Silent none = Unit
  Silent (some call) = (m u : String) → is_error (call m u) ≡ true

  admitted-Answers :
      (agent : Agent fl) (w : World F) (times : Readings F) (diagnosis_id fingerprint : String)
      (alert : Alert F) (granted : Bool)
      → Sound
      → Silent agent.client
      → Answers alert (admitted fl tools agent w times diagnosis_id fingerprint alert granted)
  unfolding admitted consult is_usable
  admitted-Answers agent w times diagnosis_id fingerprint alert false h silent =
      keep-Answers agent alert _ (
        make_llm_unavailable_result-Returned agent.model times diagnosis_id alert rate_limited _ h
          refl refl)
  admitted-Answers agent w times diagnosis_id fingerprint alert true h silent =
      elim (Option-cases agent.client) [
        | inl e ↦ rw e (
            keep-Answers agent alert _ (
              make_failed_result-Returned agent.model times diagnosis_id alert failed _ h refl
                refl))
        | inr (call, e) ↦ rw e (
            ask-Answers agent times diagnosis_id fingerprint alert call _ h (subst Silent e silent))
      ]

  -- A stored diagnosis that passed the checks and has an identifier.
  abbrev pub is_stored : DiagnosisResult F → Bool
  is_stored d = is_acceptable fl d && not (d.diagnosis_id == "")

  pub is_acceptable-clone :
      (times : Readings F) (diagnosis_id : String) (alert : Alert F) (d : DiagnosisResult F)
      → is_stored d ≡ true
      → is_acceptable fl (clone fl times diagnosis_id alert d) ≡ true
  unfolding is_acceptable clone check_status_error_consistency
  is_acceptable-clone times diagnosis_id alert d h = ground arith

  stored-lookup :
      (agent : Agent fl) (times : Readings F) (fingerprint : String) (d : DiagnosisResult F)
      → All (λ x. is_stored x ≡ true) agent.store.diagnoses
      → lookup fl tools agent times fingerprint ≡ some d
      → is_stored d ≡ true
  unfolding lookup
  stored-lookup agent times fingerprint d all e =
      elim (find_cached_match_lem fl agent.store fingerprint
        (sub_ℕ times.lookup_ms result_cache_ttl_ms) (fl.literal (pos 7) 1)) [
          | inl nothing ↦ absurd (none-ne-some d (sym nothing.0 ∙ e))
          | inr (x, found, here, fresh, done, sure, marked) ↦
              subst (λ y. is_stored y ≡ true) (some-injective x d (sym found ∙ e))
                (All-Mem is_stored agent.store.diagnoses all here)
        ]

  lookup-Reused :
      (agent : Agent fl) (times : Readings F) (diagnosis_id fingerprint : String) (alert : Alert F)
      (e : DiagnosisResult F)
      → lookup fl tools agent times fingerprint ≡ some e
      → Reused agent fingerprint alert (clone fl times diagnosis_id alert e)
  unfolding lookup clone
  lookup-Reused agent times diagnosis_id fingerprint alert e hit =
      elim (find_cached_match_lem fl agent.store fingerprint
        (sub_ℕ times.lookup_ms result_cache_ttl_ms) (fl.literal (pos 7) 1)) [
          | inl nothing ↦ absurd (none-ne-some e (sym nothing.0 ∙ hit))
          | inr (x, found, here, fresh, done, sure, marked) ↦
              subst (λ y. Reused agent fingerprint alert (clone fl times diagnosis_id alert y))
                (some-injective x e (sym found ∙ hit))
                (
                  x,
                  here,
                  done,
                  marked,
                  refl,
                  refl,
                  (refl, refl, refl, refl, refl, refl, refl, refl),
                )
        ]

  -- If the alert has a fingerprint, the confidences that the agent gives itself lie between 0 and 1,
  -- the store holds only diagnoses that passed the checks, and the model never answers, then a call
  -- returns a result all the same: a clone of a completed diagnosis of the store that is marked with
  -- the fingerprint, with its type, root cause, confidence, reasoning, evidence and action, and with
  -- the alert's identifier and node; where the type of the alert has a rule, the root cause, confidence
  -- and action of that rule; or a failure with an error text.
  pub diagnose-Silent :
      (agent : Agent fl) (w : World F) (times : Readings F) (diagnosis_id fingerprint : String)
      (alert : Alert F) (bypass_rate_limit : Bool)
      → alert_fingerprint fl texts alert ≡ some fingerprint
      → Sound
      → All (λ x. is_stored x ≡ true) agent.store.diagnoses
      → Silent agent.client
      → (d : DiagnosisResult F) × ((diagnose fl tools agent w times diagnosis_id alert
            bypass_rate_limit).0
          ≡ some d)
        × (Reused agent fingerprint alert d ⊎ ByRule alert d)
  unfolding diagnose diagnose_marked keep validated clone
  diagnose-Silent agent w times diagnosis_id fingerprint alert bypass_rate_limit e h all silent =
      elim (Option-cases (lookup fl tools agent times fingerprint)) [
        | inl miss ↦
            let (granted, limiter) =
              acquire fl tools agent alert.node_id bypass_rate_limit times.monotonic in
            let (d, same, rule) =
              admitted-Answers (record agent { rate_limiter = limiter }) w times diagnosis_id
                fingerprint alert granted h silent in
            (d, rw (e, diagnose, miss, diagnose_marked) same, inr rule)
        | inr (d, hit) ↦
            let good =
              is_acceptable-clone times diagnosis_id alert d
                (stored-lookup agent times fingerprint d all hit) in
            (
              clone fl times diagnosis_id alert d,
              rw (e, diagnose, hit, diagnose_marked, good) refl,
              inl (lookup-Reused agent times diagnosis_id fingerprint alert d hit),
            )
      ]
