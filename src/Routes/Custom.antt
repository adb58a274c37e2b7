-- ===== src/Routes/Custom.antt =====
-- The custom metric endpoints of backend/app/api/routes.py.
use solprobe.Prelude.{ℕ, String, Option, List, [], ◌∷◌, foldl, length, if◌then◌else◌}
use solprobe.Models.Metrics.{CustomMetric}
use solprobe.Stores.Custom.{add, query, get_names}
use solprobe.Stores.World.{World}
use solprobe.Routes.{Http, replied, rejected, Body, items_of, in_range}

module _ {F : Type 0} where
  unfoldable pub accept_metrics : World F → List (CustomMetric F) → Http ℕ × World F
  unfolding add
  accept_metrics w [] = (rejected 400, w)
  accept_metrics w (m ∷ ms) =
      (replied 201 (length (m ∷ ms)), record w { custom = foldl add w.custom (m ∷ ms) })

  unfoldable pub post_custom_metrics : World F → Body (CustomMetric F) → Http ℕ × World F
  unfolding accept_metrics
  post_custom_metrics w body = accept_metrics w (items_of body)

  unfoldable pub list_custom_metrics :
      World F → Option String → Option String → Option String → ℕ → Http (List (CustomMetric F))
  unfolding query
  list_custom_metrics w job_id name node_id limit =
      if in_range 1 5000 limit
      then replied 200 (query w.custom name job_id node_id limit)
      else rejected 422

  unfoldable pub list_custom_metric_names :
      (List String → List String) → World F → Option String → Http (List String)
  unfolding get_names
  list_custom_metric_names sorted w job_id = replied 200 (get_names sorted w.custom job_id)
