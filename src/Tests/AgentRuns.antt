-- ===== src/Tests/AgentRuns.antt =====
-- The diagnosis agent on concrete inputs.
use solprobe.Prelude.{
  ℕ, zero, suc, ◌+◌, ◌-◌, ◌*◌, ◌/◌, ◌≡◌, refl, arith, String, true, false, Option, none, some, [],
  ◌∷◌, ltb, leb, nat_beq, ◌⊎◌, string_eq,
}
use solprobe.Prelude.Int.{pos, pos_part}
use solprobe.Prelude.Floats.{Floats}
use solprobe.Models.Json.{Json, text, number, array, object, nil, cons, end, member}
use solprobe.Models.Metrics.{TrainingMetrics}
use solprobe.Models.Alerts.{Alert}
use solprobe.Models.Diagnoses.{DiagnosisResult, completed, monitor, check_status_error_consistency}
use solprobe.Enrichment.{gpu_dumps}
use solprobe.Stores.Metrics.{get_gpu_history, get_training_history, get_diloco_history}
use solprobe.Stores.Metrics.Ingest.{empty_store}
use solprobe.Stores.Alerts.Queries.{empty_alerts}
use solprobe.Stores.Custom.Queries.{empty_custom}
use solprobe.Stores.World.{World, Env}
use solprobe.Diagnosis.Fingerprint.{Texts, infinite, alert_fingerprint}
use solprobe.Diagnosis.Prompts.{Writers, encoded}
use solprobe.Diagnosis.Store.{add, is_completed}
use solprobe.Diagnosis.Agent.Results.{Readings, is_acceptable, clone}
use solprobe.Diagnosis.Agent.Parsing.{Response}
use solprobe.Diagnosis.Agent.Flow.{Agent, Tools, Reply, response, timeout_error, finish, diagnose}
use solprobe.Diagnosis.Agent.Recording.{Recorded, diagnose-Recorded}
use solprobe.Diagnosis.Agent.Unavailable.{ByRule, Reused, is_stored, diagnose-Silent}
use solprobe.Diagnosis.Agent.Reply.{diagnose-finish}
use solprobe.Diagnosis.Agent.Infinite.{alert_of, diagnose-instability_alert}
use solprobe.Tests.Data.{no_jobs}

-- 10 ^ n for the few places of a literal
abbrev scale : ℕ → ℕ
scale zero = 1000000
scale (suc zero) = 100000
scale (suc (suc zero)) = 10000
scale (suc (suc (suc n))) = 1

-- Millionths in place of floating point numbers; from seven on they count as infinite.
abbrev pub millionths : Floats
millionths = record {
  F = ℕ;
  lt = ltb;
  le = leb;
  eq = nat_beq;
  add = λ a b. a + b;
  sub = λ a b. a - b;
  mul = λ a b. a * b / 1000000;
  div = λ a b. a / b;
  abs = λ a. a;
  of_int = λ i. pos_part i * 1000000;
  to_int = λ a. some (pos (a / 1000000));
  is_finite = λ a. ltb a 7000000;
  format = λ spec a. "0";
  repr = λ a. "inf";
  literal = λ i places. pos_part i * scale places;
}

abbrev pub texts : Texts millionths
texts = record {
  mentions_xid = λ s. false;
  mask_numbers = λ s. s;
  parse_float = λ s. some 7000000;
  floor_log10 = λ x. infinite;
  show_int = λ i. "0";
  le_text = λ s t. true;
  digest = λ s. s;
}

abbrev writers : Writers ℕ
writers = record {
  dumps_evidence = λ d. encoded "{}";
  dumps_metric = λ d. encoded "{}";
  show_float = λ x. "0";
  show_nat = λ n. "0";
}

abbrev as_number : Json ℕ → Option ℕ
as_number (number x) = some x
as_number j = none

abbrev pub tools : Tools millionths
tools = record {
  texts = texts;
  writers = writers;
  reader = record { occurs_in = λ s t. false; to_float = as_number };
}

abbrev pub answer : Response ℕ
answer = record {
  model = some "m";
  content =
      record {
        kind = "tool_use";
        name = "submit_diagnosis";
        input =
            ("root_cause", text "bad_batch")
            ∷ ("confidence", number 900000)
            ∷ ("reasoning", text "a spike")
            ∷ ("evidence_chain", array (cons (object (member "metric" (text "loss") end)) nil))
            ∷ (
              "recommended_action",
              object (member "action" (text "rollback_lr") (member "urgency" (text "soon") end)),
            )
            ∷ [];
      }
      ∷ [];
}

abbrev pub agent : (String → String → Reply ℕ) → Agent millionths
agent call = record {
  model = "m";
  store = record { diagnoses = []; fingerprints = []; max_size = 500 };
  rate_limiter = record { cooldown = 30000000; last_call = [] };
  client = some call;
}

abbrev pub world : World ℕ
world = record {
  metrics = empty_store;
  alert_log = empty_alerts 1000;
  anomaly_log = record { anomalies = []; max_size = 1000 };
  job_registry = no_jobs;
  lifecycle = record { entries = [] };
  custom = empty_custom 1800;
  policy_book = record { policies = []; cooldowns = [] };
  issued = 0;
}

abbrev pub spike : Alert ℕ
spike = record {
  alert_id = "a1";
  node_id = "n1";
  timestamp_ms = 1000;
  severity = "CRITICAL";
  source = "EDGE";
  alert_type = "loss_spike";
  description = "spike";
  confidence = 900000;
  evidence = [];
  gpu_index = none;
  job_id = none;
}

abbrev pub times : ℕ → Readings ℕ
times t = record {
  start_ms = t;
  lookup_ms = t;
  parsed_ms = t + 5;
  stamp_ms = t + 6;
  end_ms = t + 7;
  monotonic = 100000000;
}

abbrev fingerprint : String
fingerprint = "loss_spike|n1|CRITICAL|spike"

same_fingerprint : alert_fingerprint millionths texts spike ≡ some fingerprint
unfolding alert_fingerprint
same_fingerprint = refl

-- The model answers.
diagnose-Recorded_example :
    Recorded millionths tools "d1" spike (agent (λ m u. response answer)) (
      diagnose millionths tools
        (agent (λ m u. response answer))
        world
        (times 1000)
        "d1"
        spike
        false)
diagnose-Recorded_example =
    diagnose-Recorded millionths tools "d1" spike (agent (λ m u. response answer)) world
      (times 1000) false

-- The answer is stored, and its fingerprint indexed.
answered :
    (diagnose millionths tools
      (agent (λ m u. response answer))
      world
      (times 1000)
      "d1"
      spike
      false).1.store.fingerprints
    ≡ ("d1", fingerprint) ∷ []
unfolding diagnose get_gpu_history get_training_history get_diloco_history gpu_dumps
    check_status_error_consistency
answered = refl

-- The model is too slow, and the alert has a rule.
diagnose-Silent_example :
    (d : DiagnosisResult ℕ) × ((diagnose millionths tools
        (agent (λ m u. timeout_error))
        world
        (times 1000)
        "d1"
        spike
        false).0
      ≡ some d)
    × (Reused millionths tools (agent (λ m u. timeout_error)) fingerprint spike d
        ⊎ ByRule millionths tools spike d)
diagnose-Silent_example =
    diagnose-Silent millionths tools (agent (λ m u. timeout_error)) world (times 1000) "d1"
      fingerprint spike false same_fingerprint
      (refl, (refl, (refl, (refl, (refl, (refl, (refl, (refl, tt)))))))) tt (λ m u. refl)

-- A diagnosis of the model, and a second alert of the same kind four minutes later.
abbrev pub diagnosis : DiagnosisResult ℕ
diagnosis = record {
  diagnosis_id = "d1";
  alert_id = "a1";
  alert_type = "loss_spike";
  node_id = "n1";
  timestamp_ms = 1006;
  root_cause = "bad_batch";
  confidence = 900000;
  reasoning = "a spike";
  evidence_chain = [];
  recommended_action = record { action = "rollback_lr"; params = []; urgency = monitor };
  similar_incidents = [];
  llm_model = "m";
  latency_ms = pos 5;
  status = completed;
  error = none;
  cached_from = none;
}

abbrev pub first_agent : Agent millionths
first_agent = agent (λ m u. response answer)

stored : is_stored millionths tools diagnosis ≡ true
unfolding is_acceptable check_status_error_consistency
stored = refl

finished : is_completed diagnosis.status ≡ true
unfolding is_completed
finished = refl

diagnose-finish_example :
    diagnose millionths tools
      (finish millionths tools first_agent fingerprint (some diagnosis)).1
      world
      (times 241000)
      "d2"
      spike
      false
    ≡ (
      some (clone millionths (times 241000) "d2" spike diagnosis),
      record (finish millionths tools first_agent fingerprint (some diagnosis)).1 {
        store =
            add
              (finish millionths tools first_agent fingerprint (some diagnosis)).1.store
              (clone millionths (times 241000) "d2" spike diagnosis);
      },
    )
diagnose-finish_example =
    diagnose-finish millionths tools first_agent world (times 241000) "d2" fingerprint spike false
      diagnosis same_fingerprint (omega arith) stored finished refl refl

abbrev env : Env
env = record { floats = millionths; uuid = λ n. "id"; show = λ n. "7" }

-- The loss is infinite.
abbrev diverged : TrainingMetrics ℕ
diverged = record {
  node_id = "n1";
  job_id = "j1";
  timestamp_ms = 1000;
  step = 7;
  loss = 7000000;
  gradient_norm = 1;
  learning_rate = 1;
  throughput_tps = 1000;
  mfu_pct = 40;
}

diagnose-instability_alert_example :
    diagnose millionths tools first_agent world
      (times 1000)
      "d1"
      (alert_of env (λ n l. l) tools "a1" 1000 "n1" diverged)
      false
    ≡ (none, first_agent)
diagnose-instability_alert_example =
    diagnose-instability_alert env (λ n l. l) tools first_agent world (times 1000) "d1" "a1" 1000
      "n1" diverged false refl refl refl refl refl
