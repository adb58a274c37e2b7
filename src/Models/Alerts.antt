-- ===== src/Models/Alerts.antt =====
-- backend/app/models/alerts.py, over a type `F` of floating point numbers.
use solprobe.Prelude.{ℕ, String, Option, List}
use solprobe.Prelude.Dict.{Dict}

pub record Alert (F : Type 0) : Type 0 where
  pub alert_id : String
  pub node_id : String
  pub timestamp_ms : ℕ
  pub severity : String
  pub source : String
  pub alert_type : String
  pub description : String
  pub confidence : F
  pub evidence : Dict String String
  pub gpu_index : Option ℕ
  pub job_id : Option String

pub record Anomaly (F : Type 0) : Type 0 where
  pub alert : Alert F
  pub detector_name : String
  pub window_minutes : ℕ
  pub raw_score : F

pub record JobRegistration : Type 0 where
  pub job_id : String
  pub name : Option String
  pub config : Dict String String
  pub node_ids : List String
