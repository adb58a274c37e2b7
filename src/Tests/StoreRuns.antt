-- ===== src/Tests/StoreRuns.antt =====
-- The stores on concrete inputs.
use mathlib.Core.List.{Perm}
use solprobe.Prelude.{
  ℕ, ◌≡◌, refl, arith, max, String, true, none, some, List, [], ◌∷◌, false, ◌++◌, reverse, length,
  take, filter_by, contains, if◌then◌else◌, ◌==◌, string_eq, pair_eq, option_eq, is_some, ◌⊎◌,
}
use solprobe.Prelude.Ring.{take_last}
use solprobe.Prelude.Result.{ok}
use solprobe.Models.Metrics.{CustomMetric}
use solprobe.Stores.Jobs.{Job, JobStore, register, update_status, get_job, known_status, new_job}
use solprobe.Stores.Jobs.Bounds.{IsValid, register-IsValid}
use solprobe.Stores.Metrics.{buffer_or_new, ring_buffer_size, mark_job_progress}
use solprobe.Stores.Metrics.Ingest.{
  IsStore, ingest_all, training_samples, ingest_all-IsStore, empty_store,
  training-ingest_all-eq-take_last,
}
use solprobe.Stores.Metrics.Progress.{progressed, get_job-mark_job_progress}
use solprobe.Stores.Alerts.{alert_matches}
use solprobe.Stores.Alerts
use solprobe.Stores.Alerts.Queries.{add_alerts, empty_alerts, query-add_alerts}
use solprobe.Stores.Lifecycle.{get_open_alert_ids}
use solprobe.Stores.Lifecycle.Open.{
  Change, sets, adds, changed_all, empty_lifecycle, said, contains-get_open_alert_ids,
}
use solprobe.Stores.Custom.{buffer_of, candidates}
use solprobe.Stores.Custom
use solprobe.Stores.Custom.Queries.{
  NewestFirst, is_asked, stored_samples, query_lem, add_all, empty_custom,
}
use solprobe.Stores.Policies.{get_policy}
use solprobe.Tests.Data.{batches, no_jobs, custom_sample, alert, one_policy}

abbrev job1 : Job
job1 = new_job "j1" [] ("n1" ∷ []) none 5

abbrev one_job : JobStore
one_job = record { jobs = ("j1", job1) ∷ []; max_size = 2 }

no_jobs-IsValid : IsValid no_jobs
no_jobs-IsValid = record { distinct = tt; bounded = omega arith; entries = tt }

one_job-IsValid : IsValid one_job
unfolding new_job known_status
one_job-IsValid = record {
  distinct = (refl, tt);
  bounded = omega arith;
  entries = ((refl, refl), tt);
}

empty-IsStore : IsStore (empty_store {F = ℕ})
empty-IsStore = record { distinct = tt; buffers = tt }

training-ingest_all-eq-take_last_example :
    (buffer_or_new "n1" (ingest_all empty_store no_jobs batches).0).training_metrics
    ≡ take_last ring_buffer_size (training_samples "n1" batches)
training-ingest_all-eq-take_last_example = training-ingest_all-eq-take_last no_jobs batches "n1"

ingest_all-IsStore_example : IsStore (ingest_all empty_store no_jobs batches).0
ingest_all-IsStore_example = ingest_all-IsStore empty_store no_jobs batches empty-IsStore

get_job-mark_job_progress_example : get_job (mark_job_progress one_job "j1" 9) "j1" ≡ (
    if ◌==◌ {A = String} "j1" ""
    then get_job one_job "j1"
    else if ◌==◌ {A = String} "j1" "j1"
    then progressed 9 (get_job one_job "j1")
    else get_job one_job "j1")
get_job-mark_job_progress_example = get_job-mark_job_progress one_job "j1" 9 "j1"

register-IsValid_example : IsValid (register one_job "j2" [] [] none 6)
register-IsValid_example = register-IsValid one_job "j2" [] [] none 6 one_job-IsValid

abbrev running_job : JobStore
running_job = record one_job {
  jobs = ("j1", record job1 { status = "running"; updated_at_ms = 8 }) ∷ [];
}

update_status_run : update_status one_job "j1" "running" 8 ≡ ok running_job
unfolding update_status
update_status_run = refl

no_j2 : get_job one_job "j2" ≡ none
unfolding get_job
no_j2 = refl

some_j1 : get_job one_job "j1" ≡ some job1
unfolding get_job
some_j1 = refl

query-add_alerts_example :
    Alerts.query
      (add_alerts (empty_alerts 1) (alert "a1" 1 ∷ alert "a2" 2 ∷ []))
      (some "n1")
      none
      none
      5
    ≡ take (max 1 5) (
        filter_by
          (alert_matches (some "n1") none none)
          (reverse (take_last 1 (alert "a1" 1 ∷ alert "a2" 2 ∷ []))))
query-add_alerts_example =
    query-add_alerts 1 (alert "a1" 1 ∷ alert "a2" 2 ∷ []) (some "n1") none none 5

-- One alert is resolved and gets a note, one is only noted, and a third has a state that is refused.
abbrev changes : List Change
changes =
    sets "a1" "acknowledged"
    ∷ adds "a2" "seen" none 1
    ∷ sets "a1" "resolved"
    ∷ sets "a3" "closed"
    ∷ adds "a1" "done" none 2
    ∷ []

contains-get_open_alert_ids_example :
    contains (get_open_alert_ids (changed_all empty_lifecycle changes)) "a1" ≡ false
unfolding said
contains-get_open_alert_ids_example = contains-get_open_alert_ids changes "a1"

abbrev custom_samples : List (CustomMetric ℕ)
custom_samples = custom_sample 10 1 ∷ custom_sample 30 3 ∷ custom_sample 20 2 ∷ []

query_lem_example :
    (rest : List (CustomMetric ℕ)) × Perm
      (Custom.query (add_all (empty_custom 2) custom_samples) (some "entropy") none none 1 ++ rest)
      (filter_by
        (is_asked (some "entropy") none none)
        (stored_samples (add_all (empty_custom 2) custom_samples)))
    × NewestFirst (
        Custom.query (add_all (empty_custom 2) custom_samples) (some "entropy") none none 1 ++ rest)
    × ((length (Custom.query (add_all (empty_custom 2) custom_samples) (some "entropy") none none 1)
          ≡ 1)
        ⊎ (rest ≡ []))
query_lem_example = query_lem 2 custom_samples (some "entropy") none none 1

has_p1 : is_some (get_policy one_policy "p1") ≡ true
unfolding get_policy
has_p1 = refl
