-- ===== src/Tests/RouteRuns.antt =====
-- The HTTP handlers and the background loops on concrete inputs.
use solprobe.Prelude.{
  ℕ, ◌≤◌, ◌*◌, ◌≡◌, refl, true, false, none, some, List, [], ◌∷◌, map, All, ◌⊎◌, length, ◌==◌,
  string_eq, option_eq, contains,
}
use solprobe.Prelude.Dict.Order.{Distinct}
use solprobe.Models.Alerts.{Alert}
use solprobe.Stores.Alerts.Queries.{add_alerts, empty_alerts}
use solprobe.Stores.Alerts.{AlertStore, query}
use solprobe.Stores.Jobs.{Job, get_job}
use solprobe.Stores.World.{World}
use solprobe.Diagnosis.Fingerprint.{alert_fingerprint}
use solprobe.Diagnosis.Store.{get_by_alert_id}
use solprobe.Routes.{Body, several, items_of, rejected, replied}
use solprobe.Routes.Nodes.{Timed, post_metrics_batches}
use solprobe.Routes.Streams.{Taken, post_metrics_batches_lem}
use solprobe.Routes.Summary.{Summary, get_job_summary}
use solprobe.Routes.Summary.Joined.{ids, not_newer, training_of, get_job_summary_lem}
use solprobe.Application.Loops.{delays, delays-bounds}
use solprobe.Application.Starvation.{Setting, rounds, rounds-Leads}
use solprobe.Tests.Data.{batch, alert, no_jobs}
use solprobe.Tests.Data.{world as full_world}
use solprobe.Tests.AgentRuns.{millionths, tools, first_agent, spike, times, world}

-- The second of three batches has no samples.
abbrev uploads : Body (Timed ℕ)
uploads = several (
    (batch 1000 5, 1000, 1000)
    ∷ (record { gpu = []; training = none; diloco = none }, 1001, 1001)
    ∷ (batch 3000 6, 3000, 3000)
    ∷ [])

post_metrics_batches_lem_example :
    ((items_of uploads ≡ []) × (post_metrics_batches world uploads ≡ (rejected 400, world)))
    ⊎ ((first : Timed ℕ) × (rest : List (Timed ℕ)) × (items_of uploads ≡ first ∷ rest)
        × Taken
            (length (items_of uploads))
            world
            (items_of uploads)
            (post_metrics_batches world uploads))
post_metrics_batches_lem_example = post_metrics_batches_lem world uploads

abbrev job : Job
job = record {
  job_id = "j1";
  name = none;
  status = "running";
  config = [];
  node_ids = "n1" ∷ "n2" ∷ [];
  created_at_ms = 500;
  updated_at_ms = 600;
}

abbrev busy : World ℕ
busy = record full_world {
  job_registry = record no_jobs { jobs = ("j1", job) ∷ [] };
  alert_log =
      add_alerts (empty_alerts 1000)
        (record (alert "a1" 4) { job_id = some "j1" } ∷ alert "a2" 5 ∷ []);
}

registered : get_job busy.job_registry "j1" ≡ some job
unfolding get_job
registered = refl

get_job_summary_lem_example :
    (s : Summary ℕ) × (get_job_summary busy first_agent.store "j1" 9000 ≡ replied 200 s)
    × All (λ a. a.job_id == some "j1" ≡ true) s.alerts
    × Distinct (ids s.diagnoses)
    × All (λ d. contains (map (λ a. a.alert_id) s.alerts) d.alert_id ≡ true) s.diagnoses
    × All (λ n. not_newer (training_of busy.metrics n) s.latest_training ≡ true) job.node_ids
get_job_summary_lem_example = get_job_summary_lem busy first_agent.store "j1" 9000 job registered

delays-bounds_example :
    All (λ d. (5 ≤ d) × (d ≤ 5 * 30)) (delays 5 0 (true ∷ true ∷ false ∷ true ∷ []))
delays-bounds_example = delays-bounds 5 0 (true ∷ true ∷ false ∷ true ∷ [])

backed_off : delays 5 0 (true ∷ true ∷ false ∷ []) ≡ 5 ∷ 10 ∷ 20 ∷ 5 ∷ []
unfolding delays
backed_off = refl

-- An alert for an infinite loss.
abbrev diverging : Alert ℕ
diverging = record spike { alert_id = "a9"; evidence = ("value_loss", "inf") ∷ [] }

abbrev critical_log : AlertStore ℕ
critical_log = record { alerts = spike ∷ diverging ∷ []; max_size = 1000 }

abbrev settings : List (Setting millionths tools)
settings =
    (
      record world { alert_log = critical_log },
      2000,
      λ alert_id. record { times = times 2000; diagnosis_id = "d5" },
    )
    ∷ []

no_fingerprint : alert_fingerprint millionths tools.texts diverging ≡ none
unfolding alert_fingerprint
no_fingerprint = refl

undiagnosed : get_by_alert_id first_agent.store "a9" ≡ none
unfolding get_by_alert_id
undiagnosed = refl

leads : query critical_log none (some "CRITICAL") none 20 ≡ diverging ∷ spike ∷ []
unfolding query
leads = refl

rounds-Leads_example :
    All
      (λ r. r ≡ record { raised = true; broadcast = []; agent = first_agent })
      (rounds millionths tools first_agent settings)
rounds-Leads_example =
    rounds-Leads millionths tools first_agent diverging settings no_fingerprint undiagnosed
      ((spike ∷ [], leads), tt)
