-- ===== src/Application/Lifespan.antt =====
-- The start and the shutdown of the service: `lifespan` of backend/app/main.py with the life cycle of
-- the server in backend/app/grpc_server.py, the gauges and the endpoint that shows them. The
-- environment, `int` and the outcome of binding a port are parameters.
use solprobe.Prelude.{
  ℕ, String, Bool, true, ◌≡◌, refl, Option, none, some, List, [], ◌∷◌, ◌++◌, Option-cases, ◌⊎◌, inl,
  inr, if◌then◌else◌, Bool-cases,
}
use solprobe.Prelude.Int.{ℤ}
use solprobe.Prelude.Result.{Error, value_error, runtime_error}
use solprobe.Stores.Metrics.{node_count}
use solprobe.Stores.Alerts.{alert_count}
use solprobe.Stores.World.{World}
use solprobe.Diagnosis.Store.{DiagnosisStore, count}
use solprobe.Broadcast.{Connection, active_count}
use solprobe.Routes.{Http, replied}

-- What the processes of the service share: whether the hub and the event loop were handed to the
-- gRPC server, the port that it listens on, and the tasks that run.
pub record Services : Type 0 where
  pub ws_hub : Bool
  pub event_loop : Bool
  pub grpc_server : Option ℤ
  pub background_tasks : List String

-- The loops that `lifespan` starts, in its order.
abbrev pub background_loops : List String
background_loops =
    "zscore" ∷ "cross_node" ∷ "diloco" ∷ "numeric_instability" ∷ "training_stalled" ∷ "loss_plateau"
    ∷ "throughput_regression" ∷ "policy_evaluator" ∷ "metric_summary" ∷ "prom_gauge"
    ∷ "auto_diagnosis" ∷ []

unfoldable pub set_ws_hub : Services → Services
set_ws_hub s = record s { ws_hub = true }

unfoldable pub set_event_loop : Services → Services
set_event_loop s = record s { event_loop = true }

abbrev pub port_text : Option String → String
port_text none = "50051"
port_text (some s) = s

module _ (getenv : String → Option String) (parse_int : String → Option ℤ) (binds : ℤ → Bool) where
  -- The state, and the exception that is raised, if any.
  unfoldable pub start_grpc_server : ℤ → Services → Services × Option Error
  start_grpc_server port s =
      if binds port then (record s { grpc_server = some port }, none) else (s, some runtime_error)

  abbrev launch : Services × Option Error → Services × Option Error
  launch (s, some e) = (s, some e)
  launch (s, none) = (record s { background_tasks = s.background_tasks ++ background_loops }, none)

  abbrev pub configured_port : Option ℤ
  configured_port = parse_int (port_text (getenv "GRPC_PORT"))

  -- `lifespan` up to its `yield`
  unfoldable pub startup : Services → Services × Option Error
  unfolding set_ws_hub set_event_loop start_grpc_server
  startup s = elim configured_port [
    | none ↦ (set_event_loop (set_ws_hub s), some value_error)
    | some port ↦ launch (start_grpc_server port (set_event_loop (set_ws_hub s)))
  ]

unfoldable pub stop_grpc_server : Services → Services
stop_grpc_server s = record s { grpc_server = none }

-- `lifespan` after its `yield`; the cancelled tasks are waited for.
unfoldable pub shutdown : Services → Services
unfolding stop_grpc_server
shutdown s = stop_grpc_server (record s { background_tasks = [] })

-- The gauges, and what they are set to by `_update_prom_gauges`. `available` says whether
-- prometheus_client could be imported.
pub record Gauges : Type 0 where
  pub connected_nodes : ℕ
  pub total_alerts : ℕ
  pub ws_clients : ℕ
  pub total_diagnoses : ℕ

module _ {F : Type 0} (available : Bool) where
  unfoldable pub update_prom_gauges : World F → DiagnosisStore F → List Connection → Gauges → Gauges
  unfolding node_count alert_count count active_count
  update_prom_gauges w diagnoses connections gauges =
      if available
      then record {
        connected_nodes = node_count w.metrics;
        total_alerts = alert_count w.alert_log;
        ws_clients = active_count connections;
        total_diagnoses = count diagnoses;
      }
      else gauges

  -- `latest` writes the gauges as a text.
  unfoldable pub prometheus_metrics :
      (Gauges → String)
      → World F
      → DiagnosisStore F
      → List Connection
      → Gauges
      → Http String × Gauges
  unfolding update_prom_gauges
  prometheus_metrics latest w diagnoses connections gauges =
      let after = update_prom_gauges w diagnoses connections gauges in
      if available
      then (replied 200 (latest after), after)
      else (replied 501 "prometheus_client not installed", gauges)

-- Nothing runs.
abbrev pub Idle : Services → Type 0
Idle s = (s.grpc_server ≡ none) × (s.background_tasks ≡ [])

-- An idle service whose port is no number, or cannot be bound, ends its start with an exception and
-- is idle; else the server listens on the configured port, each loop runs once, and the service is
-- idle again after the shutdown.
pub startup-Idle :
    (getenv : String → Option String) (parse_int : String → Option ℤ) (binds : ℤ → Bool)
    (s : Services)
    → Idle s
    → (((e : Error) × ((startup getenv parse_int binds s).1 ≡ some e))
        × Idle (startup getenv parse_int binds s).0)
      ⊎ ((port : ℤ) × (configured_port getenv parse_int binds ≡ some port)
          × (binds port ≡ true)
          × ((startup getenv parse_int binds s).1 ≡ none)
          × ((startup getenv parse_int binds s).0.grpc_server ≡ some port)
          × ((startup getenv parse_int binds s).0.background_tasks ≡ background_loops)
          × Idle (shutdown (startup getenv parse_int binds s).0))
unfolding startup shutdown stop_grpc_server start_grpc_server set_ws_hub set_event_loop
startup-Idle getenv parse_int binds s (no_server, no_tasks) =
    elim (Option-cases (configured_port getenv parse_int binds)) [
      | inl e ↦ inl (
        (value_error, rw (startup, e) refl),
        (rw (startup, e) no_server, rw (startup, e) no_tasks),
      )
      | inr (port, e) ↦ elim (Bool-cases (binds port)) [
        | inl bound ↦ inr (
          port,
          e,
          bound,
          rw (startup, e, bound) refl,
          rw (startup, e, bound) refl,
          rw (startup, e, bound, no_tasks) refl,
          (refl, refl),
        )
        | inr taken ↦ inl (
          (runtime_error, rw (startup, e, taken) refl),
          (rw (startup, e, taken) no_server, rw (startup, e, taken) no_tasks),
        )
      ]
    ]
