-- ===== src/Stores/Jobs/Registration.antt =====
-- What the methods of the job registry do to each job.
use solprobe.Prelude.{
  ℕ, ◌≡◌, refl, ap, ◌∙◌, String, true, false, Option, none, some, List, [], ◌∷◌, ◌++◌, arith, ◌==◌,
  if◌then◌else◌, string_eq, eq_iff, Option-cases, Bool-cases, ◌⊎◌, inl, inr,
}
use solprobe.Prelude.Dict.{Dict, get, put, get-put, get-remove, get-append, put-absent}
use solprobe.Prelude.Ring.{take_last}
use solprobe.Prelude.Result.{ok, err, value_error}
use solprobe.Stores.Jobs.{
  Job, JobStore, known_status, register, update_status, touch, get_job, new_job, or_keep,
}
use solprobe.Stores.Jobs.Bounds.{evict-eq-take_last}

-- A first registration appends the new job and keeps the newest `max_size` jobs.
pub register_first :
    (s : JobStore) (job_id : String) (config : Dict String String) (node_ids : List String)
    (name : Option String) (now : ℕ)
    → get_job s job_id ≡ none
    → (register s job_id config node_ids name now).jobs
      ≡ take_last s.max_size (s.jobs ++ (job_id, new_job job_id config node_ids name now) ∷ [])
unfolding register get_job
register_first s job_id config node_ids name now h =
    rw (h, register)
      (evict-eq-take_last s.max_size _ ∙ ap (take_last s.max_size) (put-absent job_id _ s.jobs h))

abbrev pub registered_again : Job → Dict String String → List String → Option String → ℕ → Job
registered_again old config node_ids name now = record old {
  config = config;
  node_ids = node_ids;
  name = or_keep name old.name;
  updated_at_ms = now;
}

-- A second registration of a job refreshes its configuration, nodes, name and update time, keeps
-- its status and creation time, and leaves every other job alone.
pub register_again :
    (s : JobStore) (job_id : String) (config : Dict String String) (node_ids : List String)
    (name : Option String) (now : ℕ) (old : Job) (j : String)
    → get_job s job_id ≡ some old
    → get_job (register s job_id config node_ids name now) j
      ≡ (if job_id == j then some (registered_again old config node_ids name now) else get_job s j)
unfolding register get_job
register_again s job_id config node_ids name now old j h =
    rw (h, register) (unfold get in rw (get-append j) (ground (arith, get-remove job_id j s.jobs)))

abbrev pub with_status : String → ℕ → Option Job → Option Job
with_status status now none = none
with_status status now (some j) = some (record j { status = status; updated_at_ms = now })

-- An unknown status is refused. A known one is set on the job, if it is there, together with the
-- update time, and no other job changes.
pub update_status_lem :
    (s : JobStore) (job_id status : String) (now : ℕ)
    → ((known_status status ≡ false) × (update_status s job_id status now ≡ err value_error))
      ⊎ ((known_status status ≡ true)
          × (t : JobStore) × (update_status s job_id status now ≡ ok t)
          × (t.max_size ≡ s.max_size)
          × ((j : String)
              → get_job t j
                ≡ (if job_id == j then with_status status now (get_job s job_id) else get_job s j)))
unfolding update_status get_job
update_status_lem s job_id status now = elim (Bool-cases (known_status status)) [
  | inl known ↦ elim (Option-cases (get job_id s.jobs)) [
    | inl e ↦
        inr (known, s, rw (known, e, update_status), refl, λ j. ground (arith, eq_iff job_id j))
    | inr (old, e) ↦ inr (
      known,
      record s { jobs = put job_id (record old { status = status; updated_at_ms = now }) s.jobs },
      rw (known, e, update_status),
      refl,
      λ j. rw e (get-put job_id j _ s.jobs),
    )
  ]
  | inr unknown ↦ inl (unknown, rw (unknown, update_status))
]

abbrev pub touched : ℕ → Option Job → Option Job
touched now none = none
touched now (some j) = some (record j { updated_at_ms = now })

-- `touch` moves the update time of its job, if it is there, and changes nothing else.
pub get_job-touch :
    (s : JobStore) (job_id : String) (now : ℕ) (j : String)
    → get_job (touch s job_id now) j
      ≡ (if job_id == j then touched now (get_job s job_id) else get_job s j)
unfolding touch get_job
get_job-touch s job_id now j = elim (Option-cases (get job_id s.jobs)) [
  | inl e ↦ rw (e, touch) (ground (arith, eq_iff job_id j))
  | inr (old, e) ↦ rw (e, touch) (get-put job_id j _ s.jobs)
]
