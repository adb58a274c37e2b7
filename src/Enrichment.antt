-- ===== src/Enrichment.antt =====
-- backend/app/enrichment.py: the context of an alert.
use solprobe.Prelude.{
  ℕ, zero, suc, ◌≤◌, ◌≡◌, subst, sym, Bool, true, none, some, List, [], ◌∷◌, ◌++◌, map, reverse,
  length, take, filter_by, All, All-filter_by, length-take-le,
}
use solprobe.Prelude.Search.{collect-eq-take}
use solprobe.Models.Metrics.{GpuMetrics, TrainingMetrics, DilocoMetrics}
use solprobe.Models.Alerts.{Alert}
use solprobe.Stores.Metrics.{
  MetricsStore, get_gpu_history, get_training_history, get_diloco_history,
}
use solprobe.Stores.Alerts.{
  AlertStore, alert_matches, query, near, get_node_history, get_correlated,
}

abbrev pub context_window_minutes : ℕ
context_window_minutes = 4

abbrev pub history_limit : ℕ
history_limit = 10

abbrev pub correlation_window_ms : ℕ
correlation_window_ms = 30000

-- What `model_dump` makes of the metrics of each kind.
pub data Dump (F : Type 0) : Type 0 where
  gpu_dump : GpuMetrics F → Dump F
  training_dump : TrainingMetrics F → Dump F
  diloco_dump : DilocoMetrics F → Dump F

pub record EnrichedAlert (F : Type 0) : Type 0 where
  pub alert : Alert F
  pub recent_metrics : List (Dump F)
  pub node_history : List (Alert F)
  pub correlated_events : List (Alert F)

module _ {F : Type 0} where
  unfoldable pub gpu_dumps : List (List (GpuMetrics F)) → List (Dump F)
  gpu_dumps [] = []
  gpu_dumps (gs ∷ rest) = map gpu_dump gs ++ gpu_dumps rest

  unfoldable pub enrich_alert : MetricsStore F → AlertStore F → Alert F → EnrichedAlert F
  enrich_alert metrics alerts a = record {
    alert = a;
    recent_metrics =
        gpu_dumps (get_gpu_history metrics a.node_id context_window_minutes 1)
        ++ map training_dump (get_training_history metrics a.node_id context_window_minutes)
        ++ map diloco_dump (get_diloco_history metrics a.node_id context_window_minutes);
    node_history = get_node_history alerts a.node_id history_limit;
    correlated_events = get_correlated alerts a.timestamp_ms a.node_id correlation_window_ms;
  }

  All-take :
      (p : Alert F → Bool) (n : ℕ) (xs : List (Alert F))
      → All (λ x. p x ≡ true) xs
      → All (λ x. p x ≡ true) (take n xs)
  All-take p zero xs h = tt
  All-take p (suc n) [] h = tt
  All-take p (suc n) (x ∷ xs) h = (h.0, All-take p n xs h.1)

  -- The history of an enriched alert holds at most ten alerts, all of its node, and the correlated
  -- events are all of other nodes and at most thirty seconds away.
  pub enrich_alert_lem :
      (metrics : MetricsStore F) (alerts : AlertStore F) (a : Alert F)
      → (length (enrich_alert metrics alerts a).node_history ≤ 10)
        × All
            (λ x. alert_matches (some a.node_id) none none x ≡ true)
            (enrich_alert metrics alerts a).node_history
        × All
            (λ x. near a.timestamp_ms a.node_id 30000 x ≡ true)
            (enrich_alert metrics alerts a).correlated_events
  unfolding enrich_alert get_node_history get_correlated query
  enrich_alert_lem metrics alerts a =
      let test : Alert F → Bool = alert_matches (some a.node_id) none none in
      let found = filter_by test (reverse alerts.alerts) in
      let same = collect-eq-take test 10 (reverse alerts.alerts) in
      (
        subst (λ l. length l ≤ 10) (sym same) (length-take-le 10 found),
        subst (All (λ x. test x ≡ true)) (sym same)
            (All-take test 10 found (All-filter_by test (reverse alerts.alerts))),
        All-filter_by (near a.timestamp_ms a.node_id 30000) (reverse alerts.alerts),
      )
