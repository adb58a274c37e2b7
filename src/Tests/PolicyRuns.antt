-- ===== src/Tests/PolicyRuns.antt =====
-- The policy evaluator on concrete inputs.
use mathlib.Core.List.{Sublist}
use solprobe.Prelude.{ℕ, ◌≡◌, refl, none, some, List, [], ◌∷◌}
use solprobe.Prelude.Int.{pos}
use solprobe.Models.Alerts.{Anomaly}
use solprobe.Models.Policies.{gt}
use solprobe.Stores.Metrics.Ingest.{ingest_all}
use solprobe.Prelude.Dict.{put}
use solprobe.Stores.Metrics.{batch_node_id, absorb, buffer_or_new}
use solprobe.Stores.Policies.{policy_of, mark_triggered, in_cooldown}
use solprobe.Stores.World.{World, emit}
use solprobe.Detectors.Policy.{
  quiet, fired, evaluate_node, run_policy_evaluation, judge, fire, violation_alert, cooldown_job,
}
use solprobe.Detectors.Policy.Readers.{Sample, read_source}
use solprobe.Detectors.Policy.Conditions.{violates, sustained_violation}
use solprobe.Detectors.Policy.Runs.{trailing_run, SustainedBy, sustained_violation-SustainedBy}
use solprobe.Detectors.Policy.Firing.{evaluate_node-gpu_job, evaluate_node-fired_again, Logged}
use solprobe.Detectors.Policy.Logs.{run_policy_evaluation-Logged}
use solprobe.Tests.Data.{floats, env, loss_policy, gpu_policy, one_policy, world}

abbrev sample : ℕ → ℕ → Sample ℕ
sample t v = record { timestamp_ms = t; value = some v; job_id = none }

abbrev samples : List (Sample ℕ)
samples = sample 0 9 ∷ sample 1000 1 ∷ sample 2000 8 ∷ sample 5000 7 ∷ []

sustained_violation-SustainedBy_example :
    SustainedBy floats
      (trailing_run (violates floats gt 4) samples)
      2
      (sustained_violation floats samples gt 4 2)
sustained_violation-SustainedBy_example = sustained_violation-SustainedBy floats samples gt 4 2

evaluate_node-gpu_job_example :
    evaluate_node env world (policy_of gpu_policy 1) 5000 5 "n1" ≡ (quiet, world)
evaluate_node-gpu_job_example =
    evaluate_node-gpu_job env world (policy_of gpu_policy 1) 5000 5 "n1" "j1" refl refl

run_policy_evaluation-Logged_example :
    (new : List (Anomaly ℕ)) × Logged env world (run_policy_evaluation env world 5000).1 new
    × Sublist (run_policy_evaluation env world 5000).0 new
run_policy_evaluation-Logged_example = run_policy_evaluation-Logged env world 5000

abbrev finding : Anomaly ℕ
finding = record {
  alert = record {
    alert_id = "id";
    node_id = "n1";
    timestamp_ms = 5000;
    severity = "WARNING";
    source = "CENTRAL";
    alert_type = "policy_violation";
    description = "high loss (node=n1)";
    confidence = 1;
    evidence =
        ("policy_id", "p1")
        ∷ ("field", "training.loss")
        ∷ ("operator", "gt")
        ∷ ("threshold", "0")
        ∷ ("actual_value", "0")
        ∷ ("duration_seconds", "0")
        ∷ ("for_seconds", "0")
        ∷ [];
    gpu_index = none;
    job_id = some "j1";
  };
  detector_name = "policy_evaluator";
  window_minutes = 5;
  raw_score = 2;
}

abbrev after : World ℕ
after =
    emit
      (record world { policy_book = mark_triggered one_policy "p1" (some "n1") (some "j1") 5000 })
      finding

-- The loss has been above 4 for two seconds.
fires : evaluate_node env world (policy_of loss_policy 1) 5000 5 "n1" ≡ (fired finding, after)
unfolding evaluate_node ingest_all read_source batch_node_id put absorb buffer_or_new judge
    sustained_violation in_cooldown fire violation_alert cooldown_job
fires = refl

evaluate_node-fired_again_example :
    evaluate_node env after (policy_of loss_policy 1) 64999 5 "n1" ≡ (quiet, after)
evaluate_node-fired_again_example =
    evaluate_node-fired_again env world after (policy_of loss_policy 1) 5000 64999 5 "n1" finding
      (pos 60000) refl refl refl fires
