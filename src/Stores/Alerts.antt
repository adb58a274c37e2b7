-- ===== src/Stores/Alerts.antt =====
-- `AlertStore` and `AnomalyStore` of backend/app/stores.py.
pub mod Queries
use solprobe.Prelude.{
  ℕ, ◌+◌, String, Bool, true, false, not, ◌&&◌, Option, none, some, List, [], reverse,
  if◌then◌else◌, leb, ◌==◌, string_eq, length, filter_by,
}
use solprobe.Prelude.Ring.{push, slice_last}
use solprobe.Prelude.Search.{collect}
use solprobe.Models.Alerts.{Alert, Anomaly}

-- `not (f and x != f)`: an absent or empty filter lets everything pass.
unfoldable pub passes : Option String → String → Bool
passes none x = true
passes (some f) x = if f == "" then true else x == f

abbrev pub max_alerts : ℕ
max_alerts = 1000

pub record AlertStore (F : Type 0) : Type 0 where
  pub alerts : List (Alert F)
  pub max_size : ℕ

pub record AnomalyStore (F : Type 0) : Type 0 where
  pub anomalies : List (Anomaly F)
  pub max_size : ℕ

module _ {F : Type 0} where
  unfoldable pub add_alert : AlertStore F → Alert F → AlertStore F
  unfolding push
  add_alert s a = record s { alerts = push s.max_size s.alerts a }

  unfoldable pub alert_matches : Option String → Option String → Option String → Alert F → Bool
  unfolding passes
  alert_matches node_id severity alert_type a =
      passes node_id a.node_id && passes severity a.severity && passes alert_type a.alert_type

  unfoldable pub query :
      AlertStore F → Option String → Option String → Option String → ℕ → List (Alert F)
  unfolding alert_matches collect
  query s node_id severity alert_type limit =
      collect (alert_matches node_id severity alert_type) limit [] (reverse s.alerts)

  unfoldable pub get_node_history : AlertStore F → String → ℕ → List (Alert F)
  unfolding query
  get_node_history s node_id limit = query s (some node_id) none none limit

  -- `lo <= t <= hi` for `lo = timestamp_ms - window_ms`, which may be negative
  unfoldable pub near : ℕ → String → ℕ → Alert F → Bool
  near timestamp_ms exclude_node window_ms a =
      not (a.node_id == exclude_node)
      && leb timestamp_ms (a.timestamp_ms + window_ms)
      && leb a.timestamp_ms (timestamp_ms + window_ms)

  unfoldable pub get_correlated : AlertStore F → ℕ → String → ℕ → List (Alert F)
  unfolding near
  get_correlated s timestamp_ms exclude_node window_ms =
      filter_by (near timestamp_ms exclude_node window_ms) (reverse s.alerts)

  unfoldable pub alert_count : AlertStore F → ℕ
  alert_count s = length s.alerts

  unfoldable pub add_anomaly : AnomalyStore F → Anomaly F → AnomalyStore F
  unfolding push
  add_anomaly s a = record s { anomalies = push s.max_size s.anomalies a }

  unfoldable pub query_anomalies : AnomalyStore F → ℕ → List (Anomaly F)
  unfolding slice_last
  query_anomalies s limit = reverse (slice_last limit s.anomalies)
