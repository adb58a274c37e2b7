-- ===== src/Application.antt =====
-- backend/app/main.py: the health reply and the background loops. One round of a loop is a function;
-- its delays are whole seconds.
pub mod Lifespan
pub mod Loops
pub mod Diagnoses
pub mod Starvation
use solprobe.Prelude.{ℕ, String, List}
use solprobe.Stores.Metrics.{node_count}
use solprobe.Stores.Alerts.{alert_count}
use solprobe.Stores.World.{World}
use solprobe.Diagnosis.Store.{DiagnosisStore, count}
use solprobe.Broadcast.{Connection, active_count}

pub record Health : Type 0 where
  pub status : String
  pub connected_sidecars : ℕ
  pub total_alerts : ℕ
  pub total_diagnoses : ℕ
  pub ws_clients : ℕ

unfoldable pub health : {F : Type 0} → World F → DiagnosisStore F → List Connection → Health
unfolding node_count alert_count count active_count
health w diagnoses connections = record {
  status = "ok";
  connected_sidecars = node_count w.metrics;
  total_alerts = alert_count w.alert_log;
  total_diagnoses = count diagnoses;
  ws_clients = active_count connections;
}
