-- ===== src/Lib.antt =====
-- SolProbe, a monitor of GPU clusters and training runs: the backend's in-memory core.
--
-- A sidecar on each node sends batches of GPU, training and DiLoCo samples. The backend keeps them
-- in process-wide stores, and its detectors read the stores, log alerts and anomalies, and enrich
-- alerts for a diagnosis by a language model, whose results a bounded store keeps for reuse.
--
-- Which file models what (paths from the root of the repository):
--   Models         backend/app/models/{metrics,alerts,policies}.py and diagnosis/models.py: records
--                  for the pydantic models, data types for the literals
--   Stores         backend/app/stores.py, a module per class: Jobs (JobStore), Metrics
--                  (MetricsStore and _NodeBuffer; Series has the scalar series), Alerts (AlertStore,
--                  AnomalyStore), Lifecycle (AlertLifecycleStore), Policies (PolicyStore), Custom
--                  (CustomMetricsStore); World puts the process-wide instances together
--   Detectors      backend/app/detectors: Policy (policy_evaluator.py, with the readers in Readers
--                  and the conditions in Conditions), Instability (numeric_instability.py), Stalled
--                  (training_stalled.py), Zscore (zscore.py), CrossNode (cross_node.py), Diloco
--                  (diloco.py), Regression (throughput_regression.py), Plateau (loss_plateau.py)
--   Diagnosis      backend/app/diagnosis: Store (store.py), RateLimiter (rate_limiter.py),
--                  Fingerprint (fingerprint.py), Actions (actions.py), Prompts (prompts.py) and
--                  Agent (agent.py: Results, Fallback and Parsing for the results, Flow for
--                  `diagnose`)
--   Enrichment     backend/app/enrichment.py
--   Auth           backend/app/auth.py
--   Broadcast      backend/app/ws/websocket.py: the connection manager; Sessions has the endpoint, with
--                  the events of several clients and the broadcasts in any order
--   Routes         backend/app/api/routes.py: Nodes, Alerts, Jobs, Summary, Diagnoses, Policies,
--                  Custom and IncidentIo, a module per group of handlers
--   GrpcServer     backend/app/grpc_server.py: the conversions, `StreamMetrics` and `ReportAlert`
--   Application    backend/app/main.py: Loops (the delays and a round of a detector), Diagnoses (the
--                  automatic diagnosis), Lifespan (start, shutdown and gauges)
--   Training       training: Struct (`struct.pack` and the records), Callback (callback.py), Diloco
--                  (diloco_callback.py), Simulate (simulate.py: Drift for its last scenario, Main
--                  for `main`, Verify for the check of the formats) and Colab (colab.py)
--   Sidecar        sidecar/src/collectors/training.rs and diloco.rs: the readers of the files
--   Tests          the model on concrete inputs
-- The modules below a component hold its theorems: Bounds, Registration, Buffers, Ingest, Progress,
-- Queries, Notes, Open, Cooldowns, Edits, Runs, Firing, Logs, Window, Once, Correlated, Steps, Cooldown,
-- Reuse, Overflow, Recording, Reply, Unavailable, Infinite, Catalog, Streams, Joined, Starvation,
-- Delivery, Reported, Fits, Delivered, Calls, Warnings, Latest, Cleanup, Explosion,
-- Formats, Posted, Layout, Parts, Conforming, Answers, Outcomes.
--
-- How state is modelled: a store is a record, a method a function from the old record to the new
-- one, and what a method reads of the clock is an argument. A method holds its lock from its first
-- access to its last, so that a concurrent run is a sequence of calls; `ingest_batch` takes the lock
-- of the job registry inside its own, and no method of the registry takes another. The run of a
-- detector is one step: calls of other threads between its accesses are not modelled. A ring buffer
-- (`deque(maxlen=n)`) is a list, oldest first, whose append keeps the newest n. A dictionary is an
-- association list in the order of insertion. An exception is an `err`, a `none` or the outcome
-- `raised`. Dictionaries that the source copies before it returns them are values here.
--
-- Numbers: time stamps are natural numbers of milliseconds since the epoch (a negative int64 of the
-- wire is not modelled), counts and limits are natural numbers too; a difference of time stamps is
-- an integer. Floating point numbers are a parameter, the record Floats of the functions that the
-- source applies to them, and no law of arithmetic is supposed, so that infinities and values that
-- are not a number are covered. The statistics of numpy are the parameter Stats of the detectors.
-- Fresh identifiers (uuid4), number texts, the arbitrary choice of `set.pop`, `str.strip`, the test
-- for ASCII texts, regular expressions, hashes and the order of texts, `json.dumps`, what pydantic
-- reads as a number, the outcome of a send and the client of the language model are parameters too.
-- A mapped file is the list of its bytes; the two processes see each write as a whole. What numbers
-- become in four bytes, powers and exponentials are the parameter Machine, the outputs of nvidia-smi
-- and the replies of HTTP requests parameters of the client for notebooks and of the handler for
-- incidents, which also takes the environment.
-- There is no fuel: every loop of the source is over a list. The endless background loops are
-- modelled round by round.
--
-- Not modelled: the subscription, the counters and the broadcasting thread of the gRPC server; the
-- wiring of FastAPI; the constant text of the system prompt; logging; the bounds that pydantic puts on
-- single fields, but for those of a diagnosis and of an alert's confidence over gRPC; the Rust
-- sidecar but for its readers; the dashboard; the training demo with torch.
pub mod Prelude
pub mod Models
pub mod Stores
pub mod Detectors
pub mod Enrichment
pub mod Auth
pub mod Broadcast
pub mod Diagnosis
pub mod Routes
pub mod Application
pub mod GrpcServer
pub mod Training
pub mod Sidecar
pub mod Tests
