-- ===== src/Tests/MoreRuns.antt =====
-- The diagnoses, the enrichment and the training detectors on concrete inputs.
use mathlib.Core.List.{Mem}
use solprobe.Prelude.{
  ℕ, ◌≡◌, refl, arith, String, true, false, none, some, List, [], ◌∷◌, ◌++◌, reverse, last?, All,
  filter_by, Bool, not, ◌&&◌, nat_eq, if◌then◌else◌, ◌==◌, string_eq, option_eq, ◌⊎◌,
}
use solprobe.Prelude.Int.{pos, ltb_ℤ}
use solprobe.Prelude.Dict.{get}
use solprobe.Models.Metrics.{TrainingMetrics}
use solprobe.Models.Diagnoses.{DiagnosisResult, completed, monitor}
use solprobe.Diagnosis.RateLimiter.{RateLimiter, try_acquire, try_acquire_lem}
use solprobe.Diagnosis.Store.{DiagnosisStore, is_completed, reusable, find_cached_match}
use solprobe.Diagnosis.Reuse.{young, find_cached_match_lem}
use solprobe.Detectors.Policy.{quiet}
use solprobe.Detectors.Instability.{inspect_node, inspect_node_again}
use solprobe.Detectors.Stalled.{trailing_same_step_window}
use solprobe.Detectors.Stalled.Window.{AtStep, Leaves, trailing_same_step_window_lem}
use solprobe.Broadcast.{
  Connection, only, unreadable, anything, no_filter, all_readable, matches_filter, broadcast_alert,
}
use solprobe.Broadcast.Delivery.{reached, broadcast_alert_lem}
use solprobe.Tests.Data.{floats, env, alert, training_sample, world}

abbrev limiter : RateLimiter floats
limiter = record { cooldown = 30; last_call = ("n1", 100) ∷ [] }

try_acquire_lem_example :
    ((floats.lt (floats.sub 140 100) 30 ≡ true)
      × (try_acquire floats limiter "n1" 140 ≡ (false, limiter)))
    ⊎ ((floats.lt (floats.sub 140 100) 30 ≡ false)
        × ((r' : RateLimiter floats) × (try_acquire floats limiter "n1" 140 ≡ (true, r'))
            × ((q : String) (later : ℕ)
                → (try_acquire floats r' q later).0 ≡ (
                    if "n1" == q
                    then not (floats.lt (floats.sub later 140) 30)
                    else (try_acquire floats limiter q later).0))))
unfolding get
try_acquire_lem_example = try_acquire_lem floats limiter "n1" 140

abbrev diagnosis : DiagnosisResult ℕ
diagnosis = record {
  diagnosis_id = "d1";
  alert_id = "a1";
  alert_type = "thermal";
  node_id = "n1";
  timestamp_ms = 500;
  root_cause = "fan";
  confidence = 9;
  reasoning = "hot";
  evidence_chain = [];
  recommended_action = record { action = "cool"; params = []; urgency = monitor };
  similar_incidents = [];
  llm_model = "m";
  latency_ms = pos 3;
  status = completed;
  error = none;
  cached_from = none;
}

abbrev diagnoses : DiagnosisStore ℕ
diagnoses = record {
  diagnoses = diagnosis ∷ [];
  fingerprints = ("d1", "f1") ∷ ("d0", "f0") ∷ [];
  max_size = 500;
}

find_cached_match_lem_example :
    ((find_cached_match floats diagnoses "f1" (pos 100) 7 ≡ none)
      × All
          (λ d. reusable floats diagnoses.fingerprints "f1" 7 d ≡ false)
          (young floats (pos 100) (reverse diagnoses.diagnoses)))
    ⊎ ((d : DiagnosisResult ℕ) × (find_cached_match floats diagnoses "f1" (pos 100) 7 ≡ some d)
        × Mem d diagnoses.diagnoses
        × (ltb_ℤ (pos d.timestamp_ms) (pos 100) ≡ false)
        × (is_completed d.status ≡ true)
        × (floats.lt d.confidence 7 ≡ false)
        × (get d.diagnosis_id diagnoses.fingerprints == some "f1" ≡ true))
find_cached_match_lem_example = find_cached_match_lem floats diagnoses "f1" (pos 100) 7

inspect_node_again_example :
    inspect_node env
      (λ n l. l)
      (inspect_node env (λ n l. l) world [] 5 "n1").1
      (inspect_node env (λ n l. l) world [] 5 "n1").2
      6
      "n1"
    ≡ (
      quiet,
      (inspect_node env (λ n l. l) world [] 5 "n1").1,
      (inspect_node env (λ n l. l) world [] 5 "n1").2,
    )
inspect_node_again_example = inspect_node_again env (λ n l. l) world [] 5 6 "n1" (omega arith)

abbrev earlier : List (TrainingMetrics ℕ)
earlier = record (training_sample 1 5) { step = 6 } ∷ training_sample 2 5 ∷ []

trailing_same_step_window_lem_example :
    (before : List (TrainingMetrics ℕ)) × (earlier ++ training_sample 3 5 ∷ []
      ≡ before ++ trailing_same_step_window (earlier ++ training_sample 3 5 ∷ []))
    × AtStep 7 (trailing_same_step_window (earlier ++ training_sample 3 5 ∷ []))
    × Leaves 7 (last? before)
trailing_same_step_window_lem_example = trailing_same_step_window_lem earlier (training_sample 3 5)

-- The second client is gone, and the fourth gave a filter that cannot be read.
abbrev reaches : Connection → Bool
reaches c = c.ws == 1

abbrev clients : List Connection
clients =
    record { ws = 1; filt = no_filter }
    ∷ record { ws = 2; filt = no_filter }
    ∷ record {
      ws = 3;
      filt = record { node_ids = only (λ node_id. node_id == "n9"); severity = anything };
    }
    ∷ record { ws = 4; filt = record { node_ids = unreadable; severity = anything } }
    ∷ []

broadcast_alert_lem_example :
    ((broadcast_alert reaches (alert "a1" 4) clients).0
      ≡ filter_by (λ c. matches_filter c "n1" (some "WARNING") && reaches c) (reached clients))
    × ((broadcast_alert reaches (alert "a1" 4) clients).1 ≡ (
        if all_readable clients
        then filter_by
            (λ c. not (matches_filter c "n1" (some "WARNING") && not (reaches c)))
            clients
        else clients))
broadcast_alert_lem_example =
    broadcast_alert_lem reaches (alert "a1" 4) clients (refl, (refl, (refl, (refl, tt))))
