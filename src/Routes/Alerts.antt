-- ===== src/Routes/Alerts.antt =====
-- The alert and anomaly endpoints of backend/app/api/routes.py.
use solprobe.Prelude.{
  ℕ, String, Bool, true, false, Option, none, some, List, [], ◌∷◌, map, if◌then◌else◌, ◌==◌,
  string_eq,
}
use solprobe.Prelude.Result.{ok, err}
use solprobe.Models.Alerts.{Alert, Anomaly}
use solprobe.Enrichment.{EnrichedAlert, enrich_alert}
use solprobe.Stores.Alerts.{query, query_anomalies}
use solprobe.Stores.Lifecycle.{Entry, get_entry, set_state, add_note}
use solprobe.Stores.World.{World}
use solprobe.Routes.{Http, replied, rejected, in_range}

pub record AlertWithLifecycle (F : Type 0) : Type 0 where
  pub alert : Alert F
  pub lifecycle : Option Entry

pub record EnrichedAlertWithLifecycle (F : Type 0) : Type 0 where
  pub enriched : EnrichedAlert F
  pub lifecycle : Option Entry

module _ {F : Type 0} where
  unfoldable pub attach_lifecycle : World F → Alert F → AlertWithLifecycle F
  unfolding get_entry
  attach_lifecycle w a = record { alert = a; lifecycle = get_entry w.lifecycle a.alert_id }

  unfoldable pub list_alerts :
      World F
      → Option String
      → Option String
      → Option String
      → ℕ
      → Http (List (AlertWithLifecycle F))
  unfolding query attach_lifecycle
  list_alerts w severity alert_type node_id limit =
      if in_range 1 500 limit
      then replied 200
          (map (attach_lifecycle w) (query w.alert_log node_id severity alert_type limit))
      else rejected 422

  -- `for a in alerts: if a.alert_id == alert_id: return a`
  unfoldable pub first_alert : String → List (Alert F) → Option (Alert F)
  first_alert alert_id [] = none
  first_alert alert_id (a ∷ rest) =
      if a.alert_id == alert_id then some a else first_alert alert_id rest

  -- the search of the handlers, among the newest thousand
  unfoldable pub find_alert : World F → String → Option (Alert F)
  unfolding first_alert query
  find_alert w alert_id = first_alert alert_id (query w.alert_log none none none 1000)

  unfoldable pub get_enriched_alert : World F → String → Http (EnrichedAlertWithLifecycle F)
  unfolding find_alert enrich_alert get_entry
  get_enriched_alert w alert_id = elim (find_alert w alert_id) [
    | none ↦ rejected 404
    | some a ↦ replied 200 (record {
      enriched = enrich_alert w.metrics w.alert_log a;
      lifecycle = get_entry w.lifecycle alert_id;
    })
  ]

  unfoldable pub alert_exists : World F → String → Bool
  unfolding find_alert
  alert_exists w alert_id = elim (find_alert w alert_id) [ none ↦ false | some a ↦ true ]

  unfoldable pub patch_alert_state : World F → String → String → Http Entry × World F
  unfolding alert_exists set_state
  patch_alert_state w alert_id state =
      if alert_exists w alert_id
      then elim (set_state w.lifecycle alert_id state) [
        | err e ↦ (rejected 400, w)
        | ok (store, entry) ↦ (replied 200 entry, record w { lifecycle = store })
      ]
      else (rejected 404, w)

  unfoldable pub post_alert_note :
      World F → String → String → Option String → ℕ → Http Entry × World F
  unfolding alert_exists add_note
  post_alert_note w alert_id text author now =
      if alert_exists w alert_id
      then (let (store, entry) = add_note w.lifecycle alert_id text author now in
          (replied 200 entry, record w { lifecycle = store }))
      else (rejected 404, w)

  unfoldable pub list_anomalies : World F → ℕ → Http (List (Anomaly F))
  unfolding query_anomalies
  list_anomalies w limit =
      if in_range 1 500 limit
      then replied 200 (query_anomalies w.anomaly_log limit)
      else rejected 422
