-- ===== src/Detectors/Policy/Logs.antt =====
-- What a run of the policy evaluator leaves in the alert log.
use mathlib.Core.List.{Sublist, nil-sublist, foldl-append, map-append}
use mathlib.Core.List.Sublist
use solprobe.Prelude.{
  ℕ, ◌≡◌, refl, sym, ap, ◌∙◌, subst, String, Option, none, some, List, [], ◌∷◌, ◌++◌, map, foldl,
  append_assoc, append-nil, inl, inr, Option-cases,
}
use solprobe.Models.Alerts.{Anomaly}
use solprobe.Models.Policies.{Policy}
use solprobe.Stores.Alerts.{add_alert}
use solprobe.Stores.Policies.{list_enabled}
use solprobe.Stores.World.{World, Env}
use solprobe.Detectors.Policy.{
  Outcome, quiet, raised, fired, evaluate_node, evaluate_nodes, evaluate_one, evaluate_policies,
  run_policy_evaluation, or_none, window_of, candidate_node_ids,
}
use solprobe.Detectors.Policy.Firing.{
  Logged, refl-SameElsewhere, LogsOutcome, evaluate_node-LogsOutcome,
}

module _ (env : Env) where
  open env use {floats}
  open floats use {F}

  Logged-trans :
      (u v w : World F) (xs ys : List (Anomaly F))
      → Logged env u v xs
      → Logged env v w ys
      → Logged env u w (xs ++ ys)
  Logged-trans u v w xs ys (s, p) (t, q) = (
    record {
      metrics = t.metrics ∙ s.metrics;
      job_registry = t.job_registry ∙ s.job_registry;
      lifecycle = t.lifecycle ∙ s.lifecycle;
      custom = t.custom ∙ s.custom;
    },
    q
        ∙ ap (λ l. foldl add_alert l (map (λ (a : Anomaly F). a.alert) ys)) p
        ∙ sym (
            foldl-append add_alert u.alert_log (map (λ (a : Anomaly F). a.alert) xs)
              (map (λ (a : Anomaly F). a.alert) ys))
        ∙ ap (foldl add_alert u.alert_log) (sym (map-append (λ (a : Anomaly F). a.alert) xs ys)),
  )

  -- The findings that a loop returns, after those it started with; an exception returns none.
  abbrev Reports : List (Anomaly F) → List (Anomaly F) → Option (List (Anomaly F)) → Type 0
  Reports before new none = Unit
  Reports before new (some found) = found ≡ before ++ new

  -- A loop logs some findings, and returns these after the given ones if it ends without exception.
  abbrev Logs : World F → List (Anomaly F) → Option (List (Anomaly F)) × World F → Type 0
  Logs w before (result, w') =
      (new : List (Anomaly F)) × Logged env w w' new × Reports before new result

  prepend :
      (u v w : World F) (before xs : List (Anomaly F)) (result : Option (List (Anomaly F)))
      → Logged env u v xs
      → Logs v (before ++ xs) (result, w)
      → Logs u before (result, w)
  prepend u v w before xs none l (new, m, r) = (xs ++ new, Logged-trans u v w xs new l m, tt)
  prepend u v w before xs (some found) l (new, m, r) =
      (xs ++ new, Logged-trans u v w xs new l m, r ∙ append_assoc before xs new)

  -- One round of the loop over the nodes, with the rest of the loop as `go`.
  round-Logs :
      (go : World F → List (Anomaly F) → Option (List (Anomaly F)) × World F)
      → ((u : World F) (b : List (Anomaly F)) → Logs u b (go u b))
      → (w : World F) (before : List (Anomaly F)) (outcome : Outcome F) (w' : World F)
      → LogsOutcome env w (outcome, w')
      → Logs w before (elim outcome [
        | quiet ↦ go w' before
        | raised ↦ (none, w')
        | fired a ↦ go w' (before ++ a ∷ [])
      ])
  round-Logs go h w before quiet w' l =
      let (result, u) = go w' before in
      prepend w w' u before [] result l
        (subst (λ b. Logs w' b (go w' before)) (sym (append-nil before)) (h w' before))
  round-Logs go h w before raised w' l = ([], l, tt)
  round-Logs go h w before (fired a) w' l =
      let (result, u) = go w' (before ++ a ∷ []) in
      prepend w w' u before (a ∷ []) result l (h w' (before ++ a ∷ []))

  evaluate_nodes-Logs :
      (nodes : List String) (w : World F) (p : Policy F) (now window_minutes : ℕ)
      (before : List (Anomaly F))
      → Logs w before (evaluate_nodes env w p now window_minutes before nodes)
  unfolding evaluate_nodes
  evaluate_nodes-Logs [] w p now window_minutes before =
      ([], (refl-SameElsewhere env w, refl), sym (append-nil before))
  evaluate_nodes-Logs (n ∷ rest) w p now window_minutes before =
      let (outcome, w') = evaluate_node env w p now window_minutes n in
      round-Logs (λ u b. evaluate_nodes env u p now window_minutes b rest)
        (λ u b. evaluate_nodes-Logs rest u p now window_minutes b) w before outcome w'
        (evaluate_node-LogsOutcome env w p now window_minutes n)

  evaluate_one-Logs : (w : World F) (p : Policy F) (now : ℕ) → Logs w [] (evaluate_one env w p now)
  unfolding evaluate_one
  evaluate_one-Logs w p now = elim (Option-cases (window_of env p.condition.for_seconds)) [
    | inl e ↦ rw (e, evaluate_one) ([], (refl-SameElsewhere env w, refl), tt)
    | inr (window_minutes, e) ↦
        rw (e, evaluate_one)
          (evaluate_nodes-Logs (candidate_node_ids env w p.scope.node_id) w p now window_minutes [])
  ]

  reported :
      (new : List (Anomaly F)) (result : Option (List (Anomaly F)))
      → Reports [] new result
      → Sublist (or_none env result) new
  reported new none r = nil-sublist new
  reported new (some found) r = subst (Sublist found) r (Sublist.refl found)

  evaluate_policies-Logged :
      (ps : List (Policy F)) (w : World F) (now : ℕ) (before logged : List (Anomaly F))
      → Sublist before logged
      → (new : List (Anomaly F)) × Logged env w (evaluate_policies env w now before ps).1 new
        × Sublist (evaluate_policies env w now before ps).0 (logged ++ new)
  unfolding evaluate_policies
  evaluate_policies-Logged [] w now before logged s =
      ([], (refl-SameElsewhere env w, refl), subst (Sublist before) (sym (append-nil logged)) s)
  evaluate_policies-Logged (p ∷ rest) w now before logged s =
      let (found, w') = evaluate_one env w p now in
      let (xs, l, r) = evaluate_one-Logs w p now in
      let (ys, m, t) =
        evaluate_policies-Logged rest w' now (before ++ or_none env found) (logged ++ xs)
          (Sublist.append s (reported xs found r)) in
      (xs ++ ys, Logged-trans w w' _ xs ys l m, subst (Sublist _) (append_assoc logged xs ys) t)

  -- A run of the evaluator adds to the alert log the alerts of some findings, in order, and returns
  -- some of these findings, in that order; metrics, jobs, lifecycle entries and custom metrics stay as
  -- they are.
  pub run_policy_evaluation-Logged :
      (w : World F) (now : ℕ)
      → (new : List (Anomaly F)) × Logged env w (run_policy_evaluation env w now).1 new
        × Sublist (run_policy_evaluation env w now).0 new
  unfolding run_policy_evaluation
  run_policy_evaluation-Logged w now =
      evaluate_policies-Logged (list_enabled w.policy_book) w now [] [] (Sublist.refl [])
