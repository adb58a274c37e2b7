-- ===== src/Stores/World.antt =====
-- The process-wide stores together (the singletons at the end of backend/app/stores.py), and what
-- the detectors take from outside: the floating point numbers and the fresh identifiers.
use solprobe.Prelude.{ℕ, String, ◌+◌}
use solprobe.Prelude.Floats.{Floats}
use solprobe.Models.Alerts.{Anomaly}
use solprobe.Stores.Jobs.{JobStore}
use solprobe.Stores.Metrics.{MetricsStore}
use solprobe.Stores.Alerts.{AlertStore, AnomalyStore, add_alert, add_anomaly}
use solprobe.Stores.Lifecycle.{LifecycleStore}
use solprobe.Stores.Custom.{CustomStore}
use solprobe.Stores.Policies.{PolicyStore}

pub record World (F : Type 0) : Type 0 where
  pub metrics : MetricsStore F
  pub alert_log : AlertStore F
  pub anomaly_log : AnomalyStore F
  pub job_registry : JobStore
  pub lifecycle : LifecycleStore
  pub custom : CustomStore F
  pub policy_book : PolicyStore F
  -- how many identifiers `uuid.uuid4` has given out
  pub issued : ℕ

-- The functions of Python's library that the detectors call.
pub record Env : Type 1 where
  pub floats : Floats
  -- the text of the n-th identifier
  pub uuid : ℕ → String
  -- str(n) for a natural number
  pub show : ℕ → String

module _ {F : Type 0} where
  -- `alert_store.add(alert)`, then `anomaly_store.add(anomaly)`
  unfoldable pub emit : World F → Anomaly F → World F
  unfolding add_alert add_anomaly
  emit w a = record w {
    alert_log = add_alert w.alert_log a.alert;
    anomaly_log = add_anomaly w.anomaly_log a;
    issued = w.issued + 1;
  }
