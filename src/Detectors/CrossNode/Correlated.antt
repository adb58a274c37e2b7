-- ===== src/Detectors/CrossNode/Correlated.antt =====
-- Which nodes backend/app/detectors/cross_node.py reports as failing together.
use solprobe.Prelude.{
  ℕ, ◌≤◌, ◌≡◌, refl, ap, String, true, List, [], ◌∷◌, ◌++◌, map, if◌then◌else◌, ltb, string_eq,
  length, contains, Bool-cases, inl, inr, ◌⊎◌, arith, eq_iff, ◌+◌, ◌<◌, ltb→lt, leb, ◌&&◌, not,
  Bool, none, filter_by, ◌==◌, ◌∙◌,
}
use solprobe.Prelude.Dict.Order.{Distinct, Distinct-append_one, contains-append_one}
use solprobe.Models.Alerts.{Alert, Anomaly}
use solprobe.Stores.Alerts.{query}
use solprobe.Stores.World.{World, Env}
use solprobe.Detectors.Zscore.{Stats}
use solprobe.Detectors.CrossNode.{
  is_recent, recent_in_window, nodes_with_alerts, report_correlated, correlated_failure,
  detect_correlated_failures,
}

module _ {F : Type 0} where
  abbrev pub node_ids : List (Alert F) → List String
  node_ids alerts = map (λ a. a.node_id) alerts

  nodes_with_alerts-Distinct :
      (alerts : List (Alert F)) (nodes : List String)
      → Distinct nodes
      → Distinct (nodes_with_alerts nodes alerts)
  unfolding nodes_with_alerts
  nodes_with_alerts-Distinct [] nodes h = h
  nodes_with_alerts-Distinct (a ∷ rest) nodes h = elim (Bool-cases (contains nodes a.node_id)) [
    | inl old ↦ rw old (nodes_with_alerts-Distinct rest nodes h)
    | inr new ↦ rw new (
        nodes_with_alerts-Distinct rest (nodes ++ a.node_id ∷ [])
          (Distinct-append_one nodes a.node_id new h))
  ]

  contains-nodes_with_alerts :
      (alerts : List (Alert F)) (nodes : List String) (n : String)
      → contains (nodes_with_alerts nodes alerts) n
        ≡ (if contains nodes n then true else contains (node_ids alerts) n)
  unfolding nodes_with_alerts
  contains-nodes_with_alerts [] nodes n = ground arith
  contains-nodes_with_alerts (a ∷ rest) nodes n = ground (
    arith,
    contains-nodes_with_alerts rest nodes n,
    contains-nodes_with_alerts rest (nodes ++ a.node_id ∷ []) n,
    contains-append_one nodes a.node_id n,
    eq_iff n a.node_id,
  )

  -- Whether an alert is at most 30 seconds old and was raised outside the backend.
  abbrev pub is_failing : ℕ → Alert F → Bool
  is_failing now_ms a = leb now_ms (a.timestamp_ms + 30000) && not (a.source == "CENTRAL")

  abbrev pub failing_alerts : World F → ℕ → List (Alert F)
  failing_alerts w now_ms = filter_by (is_failing now_ms) (query w.alert_log none none none 200)

  is_recent-is_failing : (now_ms : ℕ) (a : Alert F) → is_recent now_ms a ≡ is_failing now_ms a
  unfolding is_recent
  is_recent-is_failing now_ms a = ground arith

  filter_by-is_recent :
      (now_ms : ℕ) (alerts : List (Alert F))
      → filter_by (is_recent now_ms) alerts ≡ filter_by (is_failing now_ms) alerts
  filter_by-is_recent now_ms [] = refl
  filter_by-is_recent now_ms (a ∷ alerts) =
      ground (arith, is_recent-is_failing now_ms a, filter_by-is_recent now_ms alerts)

  recent_in_window-failing_alerts :
      (w : World F) (now_ms : ℕ) → recent_in_window w now_ms ≡ failing_alerts w now_ms
  unfolding recent_in_window
  recent_in_window-failing_alerts w now_ms =
      filter_by-is_recent now_ms (query w.alert_log none none none 200)

module _ (env : Env) (stats : Stats env.floats.F) (show_list : List String → String) where
  open env use {floats}
  open floats use {F}

  abbrev pub reported_nodes : List (Anomaly F) → List String
  reported_nodes found = map (λ a. a.alert.node_id) found

  nodes-report_correlated :
      (nodes : List String) (w : World F) (now_ms : ℕ) (affected : List String) (alert_count : ℕ)
      → reported_nodes (report_correlated env stats show_list w now_ms affected alert_count nodes).0
        ≡ nodes
  unfolding report_correlated correlated_failure
  nodes-report_correlated [] w now_ms affected alert_count = refl
  nodes-report_correlated (n ∷ nodes) w now_ms affected alert_count =
      ap (◌∷◌ n) (nodes-report_correlated nodes _ now_ms affected alert_count)

  -- The affected nodes are those of the alerts, among the 200 newest of the log, that are at most 30
  -- seconds old and that no detector of the backend raised. If they are fewer than two, nothing is
  -- reported or stored; else exactly they are reported, each once.
  pub detect_correlated_failures_lem :
      (w : World F) (now_ms : ℕ)
      → (nodes : List String) × Distinct nodes
        × ((n : String) → contains nodes n ≡ contains (node_ids (failing_alerts w now_ms)) n)
        × (((length nodes < 2)
              × (detect_correlated_failures env stats show_list w now_ms ≡ ([], w)))
            ⊎ ((2 ≤ length nodes)
                × (reported_nodes (detect_correlated_failures env stats show_list w now_ms).0
                    ≡ nodes)))
  unfolding detect_correlated_failures
  detect_correlated_failures_lem w now_ms =
      let recent = recent_in_window w now_ms in
      let affected = nodes_with_alerts [] recent in
      let same = recent_in_window-failing_alerts w now_ms in
      let named = nodes-report_correlated affected w now_ms affected (length recent) in
      (
        affected,
        nodes_with_alerts-Distinct recent [] tt,
        λ n. contains-nodes_with_alerts recent [] n ∙ ap (λ l. contains (node_ids l) n) same,
        elim (Bool-cases (ltb (length affected) 2)) [
          | inl few ↦ inl (ltb→lt (length affected) 2 few, rw few refl)
          | inr many ↦ inr (ground (arith, many), rw many named)
        ],
      )
