-- ===== src/Diagnosis/Agent/Flow.antt =====
-- `diagnose` of backend/app/diagnosis/agent.py. The client of the language model, the fresh
-- identifier and the readings of the clock are arguments; `none` is an exception.
use solprobe.Prelude.{ℕ, String, ◌<>◌, Bool, true, false, Option, none, some, if◌then◌else◌}
use solprobe.Prelude.Int.{pos, sub_ℕ}
use solprobe.Prelude.Floats.{Floats}
use solprobe.Models.Alerts.{Alert}
use solprobe.Models.Diagnoses.{DiagnosisResult, failed, rate_limited}
use solprobe.Stores.World.{World}
use solprobe.Enrichment.{enrich_alert}
use solprobe.Diagnosis.Fingerprint.{Texts, alert_fingerprint}
use solprobe.Diagnosis.Prompts.{Encoded, encoded, refused, Writers, build_user_message}
use solprobe.Diagnosis.RateLimiter.{RateLimiter, try_acquire}
use solprobe.Diagnosis.Store.{
  DiagnosisStore, is_completed, add, find_similar, find_cached_match, index_fingerprint,
}
use solprobe.Diagnosis.Agent.Results.{Readings, validated, make_failed_result, clone}
use solprobe.Diagnosis.Agent.Fallback.{make_llm_unavailable_result}
use solprobe.Diagnosis.Agent.Parsing.{Response, Reader, parse_response}

abbrev pub result_cache_ttl_ms : ℕ
result_cache_ttl_ms = 300000

-- What a call of the model ends in. An exception comes with the name of its type.
pub data Reply (F : Type 0) : Type 0 where
  response : Response F → Reply F
  rate_limit_error timeout_error : Reply F
  api_error other_error : String → Reply F

-- The functions of other packages that the agent calls, on texts, JSON and numbers.
pub record Tools (fl : Floats) : Type 0 where
  pub texts : Texts fl
  pub writers : Writers fl.F
  pub reader : Reader fl.F

-- `_client` takes the model and the message of the user; the rest of its call is the same each time.
pub record Agent (fl : Floats) : Type 0 where
  pub model : String
  pub store : DiagnosisStore fl.F
  pub rate_limiter : RateLimiter fl
  pub client : Option (String → String → Reply fl.F)

module _ (fl : Floats) (tools : Tools fl) where
  open fl use {F, literal}
  open tools use {texts, writers, reader}

  -- `self._store.add(result)`, then `return result`
  unfoldable pub keep :
      Agent fl → Option (DiagnosisResult F) → Option (DiagnosisResult F) × Agent fl
  unfolding add
  keep agent none = (none, agent)
  keep agent (some d) = (some d, record agent { store = add agent.store d })

  -- Whether a call is granted, and the limiter afterwards.
  unfoldable pub acquire : Agent fl → String → Bool → F → Bool × RateLimiter fl
  unfolding try_acquire
  acquire agent node_id true now = (true, agent.rate_limiter)
  acquire agent node_id false now = try_acquire fl agent.rate_limiter node_id now

  unfoldable pub lookup : Agent fl → Readings F → String → Option (DiagnosisResult F)
  unfolding find_cached_match
  lookup agent times fingerprint =
      find_cached_match fl agent.store fingerprint (sub_ℕ times.lookup_ms result_cache_ttl_ms)
        (literal (pos 7) 1)

  -- Phase 3: what comes after a response was parsed.
  unfoldable pub finish :
      Agent fl → String → Option (DiagnosisResult F) → Option (DiagnosisResult F) × Agent fl
  unfolding keep index_fingerprint is_completed add
  finish agent fingerprint none = (none, agent)
  finish agent fingerprint (some d) =
      let stored = add agent.store d in
      (
        some d,
        record agent {
          store =
              if is_completed d.status
              then index_fingerprint stored d.diagnosis_id fingerprint
              else stored;
        },
      )

  unfoldable pub conclude :
      Agent fl
      → Readings F
      → String
      → String
      → Alert F
      → Reply F
      → Option (DiagnosisResult F) × Agent fl
  unfolding keep finish make_llm_unavailable_result parse_response
  conclude agent times diagnosis_id fingerprint alert reply =
      let unavailable : String → Option (DiagnosisResult F) × Agent fl = λ error.
        keep agent
          (make_llm_unavailable_result fl agent.model times diagnosis_id alert failed error) in
      elim reply [
        | rate_limit_error ↦ unavailable "LLM API rate limit exceeded"
        | timeout_error ↦ unavailable "LLM API request timed out"
        | api_error name ↦ unavailable ("LLM API error: " <> name)
        | other_error name ↦ unavailable ("Unexpected LLM error: " <> name)
        | response r ↦
            finish agent fingerprint
              (parse_response fl reader agent.model times diagnosis_id alert r)
      ]

  unfoldable pub ask :
      Agent fl
      → Readings F
      → String
      → String
      → Alert F
      → (String → String → Reply F)
      → Encoded String
      → Option (DiagnosisResult F) × Agent fl
  unfolding keep conclude make_failed_result
  ask agent times diagnosis_id fingerprint alert call (refused name) = keep agent (
      make_failed_result fl agent.model times diagnosis_id alert failed
        ("Context preparation failed: " <> name))
  ask agent times diagnosis_id fingerprint alert call (encoded message) =
      conclude agent times diagnosis_id fingerprint alert (call agent.model message)

  -- Phases 1 and 2, with a client.
  unfoldable pub consult :
      Agent fl
      → World F
      → Readings F
      → String
      → String
      → Alert F
      → (String → String → Reply F)
      → Option (DiagnosisResult F) × Agent fl
  unfolding ask enrich_alert find_similar build_user_message
  consult agent w times diagnosis_id fingerprint alert call =
      ask agent times diagnosis_id fingerprint alert call (
        build_user_message writers (enrich_alert w.metrics w.alert_log alert)
          (find_similar agent.store alert.alert_type 3))

  -- After the rate limit: the agent has the new limiter.
  unfoldable pub admitted :
      Agent fl
      → World F
      → Readings F
      → String
      → String
      → Alert F
      → Bool
      → Option (DiagnosisResult F) × Agent fl
  unfolding keep consult make_llm_unavailable_result make_failed_result
  admitted agent w times diagnosis_id fingerprint alert granted =
      if granted
      then elim agent.client [
        | none ↦ keep agent (
            make_failed_result fl agent.model times diagnosis_id alert failed
              "Anthropic client not initialized (missing API key?)")
        | some call ↦ consult agent w times diagnosis_id fingerprint alert call
      ]
      else keep agent (
          make_llm_unavailable_result fl agent.model times diagnosis_id alert rate_limited
            "Rate limited: cooldown period active for this node")

  -- With a fingerprint.
  unfoldable pub diagnose_marked :
      Agent fl
      → World F
      → Readings F
      → String
      → String
      → Alert F
      → Bool
      → Option (DiagnosisResult F) × Agent fl
  unfolding keep lookup clone validated acquire admitted
  diagnose_marked agent w times diagnosis_id fingerprint alert bypass_rate_limit =
      elim (lookup agent times fingerprint) [
        | some d ↦ keep agent (validated fl (clone fl times diagnosis_id alert d))
        | none ↦
            let (granted, limiter) =
              acquire agent alert.node_id bypass_rate_limit times.monotonic in
            admitted (record agent { rate_limiter = limiter }) w times diagnosis_id fingerprint
              alert granted
      ]

  unfoldable pub diagnose :
      Agent fl
      → World F
      → Readings F
      → String
      → Alert F
      → Bool
      → Option (DiagnosisResult F) × Agent fl
  unfolding alert_fingerprint diagnose_marked
  diagnose agent w times diagnosis_id alert bypass_rate_limit =
      elim (alert_fingerprint fl texts alert) [
        | none ↦ (none, agent)
        | some fingerprint ↦
            diagnose_marked agent w times diagnosis_id fingerprint alert bypass_rate_limit
      ]
