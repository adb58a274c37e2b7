-- ===== src/Stores/Metrics/Progress.antt =====
-- `_mark_job_progress`: what telemetry does to the registry of jobs.
use solprobe.Prelude.{
  ℕ, ◌≡◌, refl, ◌∙◌, String, true, List, [], ◌∷◌, Option, none, some, arith, ◌==◌, string_eq,
  eq_iff, if◌then◌else◌, Option-cases, Bool-cases, inl, inr, sym, false≢true,
}
use solprobe.Prelude.Result.{Result, ok, err}
use solprobe.Models.Metrics.{TrainingMetrics, DilocoMetrics, MetricsBatch}
use solprobe.Stores.Jobs.{Job, JobStore, known_status, update_status, get_job}
use solprobe.Stores.Jobs.Bounds.{IsValid, touch-IsValid, update_status-IsValid}
use solprobe.Stores.Jobs.Registration.{update_status_lem, get_job-touch}
use solprobe.Stores.Metrics.{
  MetricsStore, mark_job_progress, mark_training, mark_diloco, ingest_batch, after_call,
  batch_node_id,
}
use solprobe.Stores.Metrics.Ingest.{ingest_all}

-- A registered job becomes running, and any other keeps its status; both get a new update time.
abbrev pub progressed : ℕ → Option Job → Option Job
progressed now none = none
progressed now (some j) = some (record j {
  status = if j.status == "registered" then "running" else j.status;
  updated_at_ms = now;
})

running_known : known_status "running" ≡ true
unfolding known_status
running_known = refl

-- The update of the status to "running" never raises.
start_job :
    (s : JobStore) (job_id : String) (now : ℕ) (j : String) (old : Job)
    → get_job s job_id ≡ some old
    → old.status == "registered" ≡ true
    → get_job (after_call s (update_status s job_id "running" now)) j
      ≡ (if job_id == j then progressed now (get_job s job_id) else get_job s j)
start_job s job_id now j old e st = elim (update_status_lem s job_id "running" now) [
  | inl (unknown, _) ↦ absurd (false≢true (sym unknown ∙ running_known))
  | inr (_, t, done, _, jobs) ↦ rw done (rw (e, st) (rw e at (jobs j)))
]

-- Telemetry that names a job touches that job alone: a registered job starts running, any other
-- keeps its status. Telemetry that names no job changes none.
pub get_job-mark_job_progress :
    (s : JobStore) (job_id : String) (now : ℕ) (j : String)
    → get_job (mark_job_progress s job_id now) j ≡ (
        if job_id == ""
        then get_job s j
        else if job_id == j
        then progressed now (get_job s job_id)
        else get_job s j)
unfolding mark_job_progress
get_job-mark_job_progress s job_id now j = elim (Bool-cases (job_id == "")) [
  | inl blank ↦ rw blank refl
  | inr given ↦ elim (Option-cases (get_job s job_id)) [
    | inl e ↦ rw (given, e, mark_job_progress) (ground (arith, eq_iff job_id j))
    | inr (old, e) ↦ elim (Bool-cases (old.status == "registered")) [
      | inl st ↦
          rw (given, e, mark_job_progress, st) (rw (e, st) at (start_job s job_id now j old e st))
      | inr st ↦ rw (given, e, mark_job_progress, st) (rw e at (get_job-touch s job_id now j))
    ]
  ]
]

after_call-IsValid :
    (s : JobStore) (r : Result JobStore)
    → IsValid s
    → ((t : JobStore) → r ≡ ok t → IsValid t)
    → IsValid (after_call s r)
after_call-IsValid s (ok t) v h = h t refl
after_call-IsValid s (err e) v h = v

mark_job_progress-IsValid :
    (s : JobStore) (job_id : String) (now : ℕ)
    → IsValid s
    → IsValid (mark_job_progress s job_id now)
unfolding mark_job_progress
mark_job_progress-IsValid s job_id now v = elim (Bool-cases (job_id == "")) [
  | inl blank ↦ rw blank v
  | inr given ↦ elim (Option-cases (get_job s job_id)) [
    | inl e ↦ rw (given, e, mark_job_progress) v
    | inr (old, e) ↦ elim (Bool-cases (old.status == "registered")) [
      | inl st ↦
          rw (given, e, mark_job_progress, st)
            (after_call-IsValid s _ v (λ t. update_status-IsValid s t job_id "running" now v))
      | inr st ↦ rw (given, e, mark_job_progress, st) (touch-IsValid s job_id now v)
    ]
  ]
]

module _ {F : Type 0} where
  mark_training-IsValid :
      (m : Option (TrainingMetrics F)) (now : ℕ) (s : JobStore)
      → IsValid s
      → IsValid (mark_training m now s)
  unfolding mark_training
  mark_training-IsValid none now s v = v
  mark_training-IsValid (some t) now s v = mark_job_progress-IsValid s t.job_id now v

  mark_diloco-IsValid :
      (m : Option (DilocoMetrics F)) (now : ℕ) (s : JobStore)
      → IsValid s
      → IsValid (mark_diloco m now s)
  unfolding mark_diloco
  mark_diloco-IsValid none now s v = v
  mark_diloco-IsValid (some d) now s v = mark_job_progress-IsValid s d.job_id now v

  ingest_batch-IsValid :
      (s : MetricsStore F) (jobs : JobStore) (b : MetricsBatch F) (now_t now_d : ℕ)
      → IsValid jobs
      → IsValid (ingest_batch s jobs b now_t now_d).1
  unfolding ingest_batch
  ingest_batch-IsValid s jobs b now_t now_d v = elim (Option-cases (batch_node_id b)) [
    | inl e ↦ rw (e, ingest_batch) v
    | inr (n, e) ↦
        rw (e, ingest_batch)
          (mark_diloco-IsValid b.diloco now_d _ (mark_training-IsValid b.training now_t jobs v))
  ]

  -- Whatever a stream of batches brings, a valid registry of jobs stays valid.
  pub ingest_all-IsValid :
      (s : MetricsStore F) (jobs : JobStore) (bs : List (MetricsBatch F × ℕ × ℕ))
      → IsValid jobs
      → IsValid (ingest_all s jobs bs).1
  unfolding ingest_all
  ingest_all-IsValid s jobs [] v = v
  ingest_all-IsValid s jobs ((b, now_t, now_d) ∷ rest) v =
      let (s', jobs') = ingest_batch s jobs b now_t now_d in
      ingest_all-IsValid s' jobs' rest (ingest_batch-IsValid s jobs b now_t now_d v)
