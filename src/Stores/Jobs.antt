-- ===== src/Stores/Jobs.antt =====
-- `JobStore` of backend/app/stores.py: a bounded registry in the order of registration.
pub mod Bounds
pub mod Registration
use solprobe.Prelude.{
  ℕ, String, Bool, true, false, Option, none, some, List, [], ◌∷◌, ◌++◌, if◌then◌else◌, ltb, ◌==◌,
  string_eq, contains, length,
}
use solprobe.Prelude.Dict.{Dict, get, put, remove, values}
use solprobe.Prelude.Result.{Result, ok, err, value_error}

pub record Job : Type 0 where
  pub job_id : String
  pub name : Option String
  pub status : String
  pub config : Dict String String
  pub node_ids : List String
  pub created_at_ms : ℕ
  pub updated_at_ms : ℕ

pub record JobStore : Type 0 where
  pub jobs : Dict String Job
  pub max_size : ℕ

abbrev pub max_jobs : ℕ
max_jobs = 1000

abbrev pub job_statuses : List String
job_statuses = "registered" ∷ "running" ∷ "completed" ∷ "failed" ∷ []

-- `status in _JOB_STATUSES`
unfoldable pub known_status : String → Bool
known_status status = contains job_statuses status

-- `OrderedDict.move_to_end`
unfoldable pub move_to_end : String → Job → Dict String Job → Dict String Job
move_to_end k j d = remove k d ++ (k, j) ∷ []

-- `while len(self._jobs) > self._max_size: self._jobs.popitem(last=False)`
unfoldable pub evict : ℕ → Dict String Job → Dict String Job
evict m [] = []
evict m (entry ∷ rest) = if ltb m (length (entry ∷ rest)) then evict m rest else entry ∷ rest

unfoldable pub new_job : String → Dict String String → List String → Option String → ℕ → Job
new_job job_id config node_ids name now = record {
  job_id = job_id;
  name = name;
  status = "registered";
  config = config;
  node_ids = node_ids;
  created_at_ms = now;
  updated_at_ms = now;
}

abbrev pub or_keep {ℓ} : {A : Type ℓ} → Option A → Option A → Option A
or_keep none old = old
or_keep (some a) old = some a

unfoldable pub register :
    JobStore → String → Dict String String → List String → Option String → ℕ → JobStore
unfolding get put remove move_to_end evict new_job
register s job_id config node_ids name now = elim (get job_id s.jobs) [
  | some existing ↦ record s {
    jobs =
        move_to_end job_id
          (record existing {
            config = config;
            node_ids = node_ids;
            name = or_keep name existing.name;
            updated_at_ms = now;
          })
          s.jobs;
  }
  | none ↦ record s {
    jobs = evict s.max_size (put job_id (new_job job_id config node_ids name now) s.jobs);
  }
]

unfoldable pub update_status : JobStore → String → String → ℕ → Result JobStore
unfolding get put known_status
update_status s job_id status now =
    if known_status status
    then elim (get job_id s.jobs) [
      | none ↦ ok s
      | some entry ↦ ok (record s {
        jobs = put job_id (record entry { status = status; updated_at_ms = now }) s.jobs;
      })
    ]
    else err value_error

unfoldable pub touch : JobStore → String → ℕ → JobStore
unfolding get put
touch s job_id now = elim (get job_id s.jobs) [
  | none ↦ s
  | some entry ↦ record s { jobs = put job_id (record entry { updated_at_ms = now }) s.jobs }
]

unfoldable pub get_job : JobStore → String → Option Job
unfolding get
get_job s job_id = get job_id s.jobs

unfoldable pub list_all : JobStore → List Job
list_all s = values s.jobs
