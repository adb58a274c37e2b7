-- ===== src/Stores/Alerts/Queries.antt =====
-- What the queries of the alert and anomaly stores return.
use solprobe.Prelude.{
  ℕ, ◌≡◌, refl, ap, ◌∙◌, max, String, Option, List, [], ◌∷◌, foldl, reverse, take, filter_by,
}
use solprobe.Prelude.Ring.{push, take_last, foldl-push_empty}
use solprobe.Prelude.Search.{collect-eq-take}
use solprobe.Models.Alerts.{Alert}
use solprobe.Stores.Alerts.{AlertStore, add_alert, alert_matches, query}

module _ {F : Type 0} where
  pub add_alerts : AlertStore F → List (Alert F) → AlertStore F
  add_alerts = foldl add_alert

  abbrev pub empty_alerts : ℕ → AlertStore F
  empty_alerts m = record { alerts = []; max_size = m }

  alerts-foldl :
      (s : AlertStore F) (xs : List (Alert F))
      → foldl add_alert s xs ≡ record s { alerts = foldl (push s.max_size) s.alerts xs }
  unfolding add_alert
  alerts-foldl s [] = refl
  alerts-foldl s (x ∷ xs) = alerts-foldl (add_alert s x) xs

  -- A query on a store that was empty and got the alerts `xs` is the list of the first matches, at
  -- most `limit` (at least one is returned where there is one), newest first, among the newest
  -- `m` alerts.
  pub query-add_alerts :
      (m : ℕ) (xs : List (Alert F)) (node_id severity alert_type : Option String) (limit : ℕ)
      → query (add_alerts (empty_alerts m) xs) node_id severity alert_type limit
        ≡ take
            (max 1 limit)
            (filter_by (alert_matches node_id severity alert_type) (reverse (take_last m xs)))
  unfolding query add_alerts
  query-add_alerts m xs node_id severity alert_type limit =
      collect-eq-take (alert_matches node_id severity alert_type) limit _
      ∙ ap
          (λ kept.
            take (max 1 limit)
              (filter_by (alert_matches node_id severity alert_type) (reverse kept)))
          (ap (λ (s : AlertStore F). s.alerts) (alerts-foldl (empty_alerts m) xs)
            ∙ foldl-push_empty m xs)
