-- ===== src/Routes/Jobs.antt =====
-- The job endpoints of backend/app/api/routes.py, but for the summary.
use solprobe.Prelude.{ℕ, String, Option, none, some, List}
use solprobe.Prelude.Result.{ok, err}
use solprobe.Models.Alerts.{JobRegistration}
use solprobe.Stores.Jobs.{Job, register, update_status, get_job, list_all}
use solprobe.Stores.World.{World}
use solprobe.Routes.{Http, replied, rejected}

abbrev pub job_or_404 : Option Job → Http Job
job_or_404 none = rejected 404
job_or_404 (some j) = replied 200 j

module _ {F : Type 0} where
  -- The body of the reply: the identifier and the text "registered".
  unfoldable pub register_job : World F → JobRegistration → ℕ → Http (String × String) × World F
  unfolding register
  register_job w body now = (
    replied 201 (body.job_id, "registered"),
    record w {
      job_registry = register w.job_registry body.job_id body.config body.node_ids body.name now;
    },
  )

  unfoldable pub list_jobs : World F → List Job
  unfolding list_all
  list_jobs w = list_all w.job_registry

  -- `get_job`, the handler
  unfoldable pub show_job : World F → String → Http Job
  unfolding get_job
  show_job w job_id = job_or_404 (get_job w.job_registry job_id)

  unfoldable pub patch_job_status : World F → String → String → ℕ → Http Job × World F
  unfolding get_job update_status
  patch_job_status w job_id status now = elim (get_job w.job_registry job_id) [
    | none ↦ (rejected 404, w)
    | some j ↦ elim (update_status w.job_registry job_id status now) [
      | err e ↦ (rejected 400, w)
      | ok store ↦ (job_or_404 (get_job store job_id), record w { job_registry = store })
    ]
  ]
