-- ===== src/Routes/Policies.antt =====
-- The policy endpoints of backend/app/api/routes.py.
use solprobe.Prelude.{ℕ, String, none, some, List, [], ◌∷◌, if◌then◌else◌, leb}
use solprobe.Prelude.Result.{ok, err}
use solprobe.Models.Policies.{Policy, PolicyCreate, PolicyUpdate}
use solprobe.Stores.Policies.{create, update, delete, toggle, list_all}
use solprobe.Stores.World.{World}
use solprobe.Routes.{Http, replied, rejected}

module _ {F : Type 0} where
  -- `sort(key=updated_at_ms, reverse=True)`: equal times in their old order
  unfoldable pub insert_updated : Policy F → List (Policy F) → List (Policy F)
  insert_updated p [] = p ∷ []
  insert_updated p (q ∷ qs) =
      if leb q.updated_at_ms p.updated_at_ms then p ∷ q ∷ qs else q ∷ insert_updated p qs

  unfoldable pub newest_first : List (Policy F) → List (Policy F)
  unfolding insert_updated
  newest_first [] = []
  newest_first (p ∷ ps) = insert_updated p (newest_first ps)

  unfoldable pub list_policies : World F → List (Policy F)
  unfolding newest_first list_all
  list_policies w = newest_first (list_all w.policy_book)

  unfoldable pub create_policy : World F → PolicyCreate F → ℕ → Http (Policy F) × World F
  unfolding create
  create_policy w body now = elim (create w.policy_book body now) [
    | err e ↦ (rejected 409, w)
    | ok (store, p) ↦ (replied 201 p, record w { policy_book = store })
  ]

  unfoldable pub patch_policy : World F → String → PolicyUpdate F → ℕ → Http (Policy F) × World F
  unfolding update
  patch_policy w policy_id body now =
      let (store, updated) = update w.policy_book policy_id body now in
      elim updated [
        | none ↦ (rejected 404, record w { policy_book = store })
        | some p ↦ (replied 200 p, record w { policy_book = store })
      ]

  unfoldable pub delete_policy : World F → String → Http (Unit {0}) × World F
  unfolding delete
  delete_policy w policy_id =
      let (store, found) = delete w.policy_book policy_id in
      if found
      then (replied 204 tt, record w { policy_book = store })
      else (rejected 404, record w { policy_book = store })

  unfoldable pub toggle_policy : World F → String → ℕ → Http (Policy F) × World F
  unfolding toggle
  toggle_policy w policy_id now =
      let (store, toggled) = toggle w.policy_book policy_id now in
      elim toggled [
        | none ↦ (rejected 404, record w { policy_book = store })
        | some p ↦ (replied 200 p, record w { policy_book = store })
      ]
