-- ===== src/Stores/Custom.antt =====
-- `CustomMetricsStore` of backend/app/stores.py: one ring of samples for each (name, job_id).
pub mod Queries
use solprobe.Prelude.{
  ℕ, String, Bool, true, false, ◌&&◌, Option, none, some, List, [], ◌∷◌, ◌++◌, if◌then◌else◌, leb,
  ◌==◌, string_eq, pair_eq, take, head?, filter_by, contains, not,
}
use solprobe.Prelude.Dict.{Dict, get, put}
use solprobe.Prelude.Ring.{push}
use solprobe.Models.Metrics.{CustomMetric}

abbrev pub custom_metric_buffer_cap : ℕ
custom_metric_buffer_cap = 1800

-- (name, job_id)
abbrev pub Key : Type 0
Key = String × String

-- a filter that is None lets everything pass
unfoldable pub admits : Option String → String → Bool
admits none x = true
admits (some f) x = x == f

pub record CustomStore (F : Type 0) : Type 0 where
  pub buffers : Dict Key (List (CustomMetric F))
  pub max_per_key : ℕ

module _ {F : Type 0} where
  abbrev pub key_of : CustomMetric F → Key
  key_of m = (m.name, m.job_id)

  abbrev pub buffer_of : Option (List (CustomMetric F)) → List (CustomMetric F)
  buffer_of none = []
  buffer_of (some buf) = buf

  unfoldable pub add : CustomStore F → CustomMetric F → CustomStore F
  unfolding get put push
  add s m = record s {
    buffers =
        put (key_of m) (push s.max_per_key (buffer_of (get (key_of m) s.buffers)) m) s.buffers;
  }

  -- the samples of the relevant buffers, in the order of the buffers
  unfoldable pub candidates :
      Option String
      → Option String
      → Option String
      → Dict Key (List (CustomMetric F))
      → List (CustomMetric F)
  unfolding admits
  candidates name job_id node_id [] = []
  candidates name job_id node_id ((k, buf) ∷ d) =
      if admits name k.0 && admits job_id k.1
      then filter_by (λ m. admits node_id m.node_id) buf ++ candidates name job_id node_id d
      else candidates name job_id node_id d

  -- `sort(key=timestamp, reverse=True)`: newest first, equal time stamps in their old order
  unfoldable pub insert_newest : CustomMetric F → List (CustomMetric F) → List (CustomMetric F)
  insert_newest m [] = m ∷ []
  insert_newest m (x ∷ xs) =
      if leb x.timestamp_ms m.timestamp_ms then m ∷ x ∷ xs else x ∷ insert_newest m xs

  unfoldable pub sort_newest : List (CustomMetric F) → List (CustomMetric F)
  unfolding insert_newest
  sort_newest [] = []
  sort_newest (m ∷ ms) = insert_newest m (sort_newest ms)

  unfoldable pub query :
      CustomStore F → Option String → Option String → Option String → ℕ → List (CustomMetric F)
  unfolding candidates sort_newest
  query s name job_id node_id limit =
      take limit (sort_newest (candidates name job_id node_id s.buffers))

  unfoldable pub get_latest :
      CustomStore F → String → Option String → Option String → Option (CustomMetric F)
  unfolding query
  get_latest s name job_id node_id = head? (query s (some name) job_id node_id 1)

  -- the names of the buffers of a job, each once
  unfoldable pub names_of : Option String → Dict Key (List (CustomMetric F)) → List String
  unfolding admits
  names_of job_id [] = []
  names_of job_id ((k, buf) ∷ d) =
      let names = names_of job_id d in
      if admits job_id k.1 && not (contains names k.0) then k.0 ∷ names else names

  -- `sorted` is the order of Python on texts
  unfoldable pub get_names :
      (List String → List String) → CustomStore F → Option String → List String
  unfolding names_of
  get_names sorted s job_id = sorted (names_of job_id s.buffers)
