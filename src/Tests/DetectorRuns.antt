-- ===== src/Tests/DetectorRuns.antt =====
-- The statistical detectors on concrete inputs.
use solprobe.Prelude.{
  false, none, some, ℕ, zero, suc, ◌≤◌, ◌<◌, ◌≡◌, refl, String, List, [], ◌∷◌, ◌++◌, length,
  contains, string_eq, pair_eq, ◌⊎◌,
}
use solprobe.Prelude.Dict.Order.{Distinct}
use solprobe.Models.Metrics.{TrainingMetrics}
use solprobe.Stores.Metrics.{new_buffer}
use solprobe.Stores.World.{World, emit}
use solprobe.Detectors.Zscore.{Stats, run_zscore_detection}
use solprobe.Detectors.Zscore.Once.{keys_of, run_zscore_detection-Distinct}
use solprobe.Detectors.Diloco.{check_node}
use solprobe.Detectors.Diloco.Steps.{check_node_again}
use solprobe.Detectors.Regression
use solprobe.Detectors.Regression.Cooldown.{check_node_lem}
use solprobe.Prelude.Int.{pos}
use solprobe.Prelude.Dict.{Dict}
use solprobe.Models.Alerts.{Anomaly}
use solprobe.Detectors.CrossNode.{detect_correlated_failures}
use solprobe.Detectors.CrossNode.Correlated.{
  failing_alerts, node_ids, reported_nodes, detect_correlated_failures_lem,
}
use solprobe.Tests.Data.{floats, env, alert, training_sample, world}

abbrev stats : Stats ℕ
stats = record { mean = λ xs. 5; std = λ xs. 1; median = λ xs. 5 }

abbrev copies : ℕ → TrainingMetrics ℕ → List (TrainingMetrics ℕ)
copies zero m = []
copies (suc n) m = m ∷ copies n m

-- A node whose last loss is far from the thirty before.
abbrev spiked : World ℕ
spiked = record world {
  metrics = record {
    nodes =
        (
          "n1",
          record (new_buffer "n1") {
            training_metrics = copies 30 (training_sample 1 5) ++ training_sample 2 900 ∷ [];
          },
        )
        ∷ [];
  };
}

run_zscore_detection-Distinct_example : Distinct (
    keys_of env stats
      (λ p. 100)
      (run_zscore_detection env stats spiked [] (λ p. 100) (λ p. 9) 101).0)
run_zscore_detection-Distinct_example =
    run_zscore_detection-Distinct env stats (λ p. 100) spiked [] (λ p. 9) 101 (λ q r. refl)

once :
    keys_of env stats
      (λ p. 100)
      (run_zscore_detection env stats spiked [] (λ p. 100) (λ p. 9) 101).0
    ≡ ("n1", "loss_spike") ∷ ("n1", "straggler_detected") ∷ []
unfolding run_zscore_detection emit
once = refl

abbrev failing : World ℕ
failing = record world {
  alert_log = record {
    alerts = alert "a1" 40000 ∷ record (alert "a2" 41000) { node_id = "n2" } ∷ [];
    max_size = 1000;
  };
}

detect_correlated_failures_lem_example :
    (nodes : List String) × Distinct nodes
    × ((n : String) → contains nodes n ≡ contains (node_ids (failing_alerts failing 50000)) n)
    × (((length nodes < 2)
          × (detect_correlated_failures env stats (λ l. "") failing 50000 ≡ ([], failing)))
        ⊎ ((2 ≤ length nodes)
            × (reported_nodes env stats
                  (λ l. "")
                  (detect_correlated_failures env stats (λ l. "") failing 50000).0
                ≡ nodes)))
detect_correlated_failures_lem_example =
    detect_correlated_failures_lem env stats (λ l. "") failing 50000

both :
    reported_nodes env stats
      (λ l. "")
      (detect_correlated_failures env stats (λ l. "") failing 50000).0
    ≡ "n2" ∷ "n1" ∷ []
unfolding detect_correlated_failures
both = refl

-- One node at the outer step 2.
abbrev syncing : World ℕ
syncing = record world {
  metrics = record {
    nodes =
        (
          "n1",
          record (new_buffer "n1") {
            diloco_metrics =
                record {
                  node_id = "n1";
                  job_id = "j1";
                  timestamp_ms = 5;
                  inner_step = 9;
                  outer_step = 2;
                  inner_loss = 1;
                  outer_loss = 1;
                  pseudo_grad_norm = 1;
                  sync_duration_ms = 1;
                  worker_speed_ratio = 1;
                  is_straggler = false;
                }
                ∷ [];
          },
        )
        ∷ [];
  };
}

check_node_again_example :
    check_node env stats
      (check_node env stats syncing (("n1", 1) ∷ []) 100 "n1").1
      (check_node env stats syncing (("n1", 1) ∷ []) 100 "n1").2
      200
      "n1"
    ≡ (
      [],
      (check_node env stats syncing (("n1", 1) ∷ []) 100 "n1").1,
      (check_node env stats syncing (("n1", 1) ∷ []) 100 "n1").2,
    )
check_node_again_example = check_node_again env stats syncing (("n1", 1) ∷ []) 100 200 "n1"

-- A node with enough samples to compare.
abbrev slowed : World ℕ
slowed = record world {
  metrics = record {
    nodes =
        ("n1", record (new_buffer "n1") { training_metrics = copies 230 (training_sample 1 5) })
        ∷ [];
  };
}

check_node_lem_example :
    (Regression.check_node env stats (λ n x. x) slowed [] 100 100000 "n1" ≡ (none, slowed, []))
    ⊎ ((a : Anomaly ℕ) × (noted : Dict String ℕ) × (Regression.check_node env stats
            (λ n x. x)
            slowed
            []
            100
            100000
            "n1"
          ≡ (some a, emit slowed a, noted))
        × ((v : World ℕ) (later : ℕ) (later_ms : ℕ)
            → (floats.lt (floats.sub later 100) (floats.literal (pos 1200) 1) ≡ false)
              ⊎ (Regression.check_node env stats (λ n x. x) v noted later later_ms "n1"
                  ≡ (none, v, noted))))
check_node_lem_example = check_node_lem env stats (λ n x. x) slowed [] 100 100000 "n1"
