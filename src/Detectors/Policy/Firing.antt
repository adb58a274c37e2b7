-- ===== src/Detectors/Policy/Firing.antt =====
-- When the evaluation of a policy fires, and what it changes.
use solprobe.Prelude.{
  ℕ, ◌≡◌, ◌≢◌, refl, sym, ap, ◌∙◌, subst, String, Bool, true, false, Option, none, some, List, [],
  ◌∷◌, map, foldl, Bool-cases, ◌⊎◌, inl, inr, option_eq, string_eq, pair_eq, beq_refl,
}
use solprobe.Prelude.Int.{ℤ, pos, sub_ℕ, ltb_ℤ}
use solprobe.Models.Metrics.{GpuMetrics}
use solprobe.Models.Alerts.{Anomaly}
use solprobe.Models.Policies.{Policy, Source, gpu, training, diloco, custom}
use solprobe.Stores.Metrics.{get_gpu_history}
use solprobe.Stores.Alerts.{add_alert}
use solprobe.Stores.Policies.{CooldownKey, cooldown_key, in_cooldown}
use solprobe.Stores.Policies.Cooldowns.{in_cooldown-mark_triggered}
use solprobe.Stores.World.{World, Env, emit}
use solprobe.Detectors.Policy.Readers.{Sample, read_source, gpu_samples}
use solprobe.Detectors.Policy.Conditions.{Verdict}
use solprobe.Detectors.Policy.{
  Outcome, quiet, raised, fired, scope_samples, judge, cooldown_job, fire, report, evaluate_samples,
  policy_samples, evaluate_node,
}

module _ (env : Env) where
  open env use {floats}
  open floats use {F, le, mul, of_int, to_int}

  -- No GPU sample names a job.
  scope-gpu_samples :
      (job field : String) (history : List (List (GpuMetrics F)))
      → scope_samples env (some job) (gpu_samples floats field history) ≡ []
  unfolding scope_samples gpu_samples
  scope-gpu_samples job field [] = refl
  scope-gpu_samples job field ([] ∷ rest) = scope-gpu_samples job field rest
  scope-gpu_samples job field ((g ∷ gs) ∷ rest) = scope-gpu_samples job field rest

  -- A policy on GPU metrics that is scoped to a job never fires and changes nothing.
  pub evaluate_node-gpu_job :
      (w : World F) (p : Policy F) (now window_minutes : ℕ) (node_id job : String)
      → p.metric.source ≡ gpu
      → p.scope.job_id ≡ some job
      → evaluate_node env w p now window_minutes node_id ≡ (quiet, w)
  unfolding evaluate_node policy_samples
  evaluate_node-gpu_job w p now window_minutes node_id job is_gpu scoped =
      rw (is_gpu, scoped)
        (unfold read_source in
          rw
            (scope-gpu_samples job p.metric.field
              (get_gpu_history w.metrics node_id window_minutes 1))
            (unfold evaluate_samples in refl))

  -- The three ways in which an evaluation ends: quietly, by an exception, or by firing. Only the last
  -- changes anything.
  abbrev Ends : World F → Policy F → ℕ → ℕ → String → List (Sample F) → Outcome F × World F → Type 0
  Ends w p now window_minutes node_id samples r =
      (r ≡ (quiet, w))
      ⊎ ((r ≡ (raised, w))
          ⊎ (((judge env p samples).violated ≡ true)
              × (r ≡ fire env w p now window_minutes node_id (judge env p samples) samples)))

  report-Ends :
      (w : World F) (p : Policy F) (now window_minutes : ℕ) (node_id : String)
      (samples : List (Sample F)) (cooling : Option Bool)
      → in_cooldown floats w.policy_book p.policy_id
          (some node_id)
          (cooldown_job env p samples)
          p.cooldown_seconds
          now
        ≡ cooling
      → (judge env p samples).violated ≡ true
      → Ends w p now window_minutes node_id samples
          (report env w p now window_minutes node_id (judge env p samples) samples)
  unfolding report
  report-Ends w p now window_minutes node_id samples none e bad = inr (inl (rw (e, report) refl))
  report-Ends w p now window_minutes node_id samples (some true) e bad = inl (rw (e, report) refl)
  report-Ends w p now window_minutes node_id samples (some false) e bad =
      inr (inr (bad, rw (e, report) refl))

  evaluate_samples-Ends :
      (w : World F) (p : Policy F) (now window_minutes : ℕ) (node_id : String)
      (samples : List (Sample F))
      → Ends w p now window_minutes node_id samples
          (evaluate_samples env w p now window_minutes node_id samples)
  unfolding evaluate_samples
  evaluate_samples-Ends w p now window_minutes node_id [] = inl refl
  evaluate_samples-Ends w p now window_minutes node_id (s ∷ rest) =
      elim (Bool-cases (judge env p (s ∷ rest)).violated) [
        | inl bad ↦
            subst (Ends w p now window_minutes node_id (s ∷ rest)) (sym (rw bad refl))
              (report-Ends w p now window_minutes node_id (s ∷ rest) _ refl bad)
        | inr good ↦ inl (rw good refl)
      ]

  -- Nothing that a policy reads has changed.
  abbrev SameReadings : World F → World F → Type 0
  SameReadings w w' = (w'.metrics ≡ w.metrics) × (w'.custom ≡ w.custom)

  read_source-SameReadings :
      (w w' : World F) (source : Source) (node_id field : String) (window_minutes : ℕ)
      → SameReadings w w'
      → read_source floats w' source node_id field window_minutes
        ≡ read_source floats w source node_id field window_minutes
  unfolding read_source
  read_source-SameReadings w w' gpu node_id field window_minutes same = rw same.0 refl
  read_source-SameReadings w w' training node_id field window_minutes same = rw same.0 refl
  read_source-SameReadings w w' diloco node_id field window_minutes same = rw same.0 refl
  read_source-SameReadings w w' custom node_id field window_minutes same = rw same.1 refl

  -- A test of the cooldown that the mark of the firing answers.
  cooling-fire :
      (w : World F) (p : Policy F) (now later window_minutes : ℕ) (node_id : String) (v : Verdict F)
      (samples : List (Sample F)) (span : ℤ)
      → le p.cooldown_seconds (of_int (pos 0)) ≡ false
      → to_int (mul p.cooldown_seconds (of_int (pos 1000))) ≡ some span
      → ltb_ℤ (sub_ℕ later now) span ≡ true
      → in_cooldown floats
          (fire env w p now window_minutes node_id v samples).1.policy_book
          p.policy_id
          (some node_id)
          (cooldown_job env p samples)
          p.cooldown_seconds
          later
        ≡ some true
  unfolding fire emit
  cooling-fire w p now later window_minutes node_id v samples span positive finite soon =
      let key : CooldownKey =
        cooldown_key p.policy_id (some node_id) (cooldown_job env p samples) in
      in_cooldown-mark_triggered floats w.policy_book p.policy_id (some node_id)
        (cooldown_job env p samples) now p.cooldown_seconds span positive finite p.policy_id
        (some node_id) (cooldown_job env p samples) later
      ∙ rw (beq_refl {A = CooldownKey} key) (ap some soon)

  report-cooling :
      (w : World F) (p : Policy F) (now window_minutes : ℕ) (node_id : String) (v : Verdict F)
      (samples : List (Sample F))
      → in_cooldown floats w.policy_book p.policy_id
          (some node_id)
          (cooldown_job env p samples)
          p.cooldown_seconds
          now
        ≡ some true
      → report env w p now window_minutes node_id v samples ≡ (quiet, w)
  unfolding report
  report-cooling w p now window_minutes node_id v samples h = rw (h, report) refl

  evaluate_samples-cooling :
      (w : World F) (p : Policy F) (now window_minutes : ℕ) (node_id : String)
      (samples : List (Sample F))
      → in_cooldown floats w.policy_book p.policy_id
          (some node_id)
          (cooldown_job env p samples)
          p.cooldown_seconds
          now
        ≡ some true
      → evaluate_samples env w p now window_minutes node_id samples ≡ (quiet, w)
  unfolding evaluate_samples
  evaluate_samples-cooling w p now window_minutes node_id [] h = refl
  evaluate_samples-cooling w p now window_minutes node_id (s ∷ rest) h =
      elim (Bool-cases (judge env p (s ∷ rest)).violated) [
        | inl bad ↦ rw bad (report-cooling w p now window_minutes node_id _ (s ∷ rest) h)
        | inr good ↦ rw good refl
      ]

  policy_samples-fire :
      (w : World F) (p : Policy F) (now window_minutes : ℕ) (node_id : String) (v : Verdict F)
      (samples : List (Sample F))
      → policy_samples env
          (fire env w p now window_minutes node_id v samples).1
          p
          window_minutes
          node_id
        ≡ policy_samples env w p window_minutes node_id
  unfolding policy_samples fire emit
  policy_samples-fire w p now window_minutes node_id v samples =
      ap (scope_samples env p.scope.job_id) (
        read_source-SameReadings w (fire env w p now window_minutes node_id v samples).1
          p.metric.source node_id p.metric.field window_minutes (refl, refl))

  fired-ne-quiet : {a : Anomaly F} → fired a ≢ quiet
  fired-ne-quiet h = cc

  fired-ne-raised : {a : Anomaly F} → fired a ≢ raised
  fired-ne-raised h = cc

  -- After a policy with a positive cooldown has fired on a node, its evaluation there is quiet and
  -- changes nothing while less than `int(cooldown_seconds * 1000)` milliseconds have gone by, if no new
  -- sample has come in.
  pub evaluate_node-fired_again :
      (w w' : World F) (p : Policy F) (now later window_minutes : ℕ) (node_id : String)
      (a : Anomaly F) (span : ℤ)
      → le p.cooldown_seconds (of_int (pos 0)) ≡ false
      → to_int (mul p.cooldown_seconds (of_int (pos 1000))) ≡ some span
      → ltb_ℤ (sub_ℕ later now) span ≡ true
      → evaluate_node env w p now window_minutes node_id ≡ (fired a, w')
      → evaluate_node env w' p later window_minutes node_id ≡ (quiet, w')
  unfolding evaluate_node
  evaluate_node-fired_again w w' p now later window_minutes node_id a span positive finite soon h =
      let samples = policy_samples env w p window_minutes node_id in
      elim (evaluate_samples-Ends w p now window_minutes node_id samples) [
        | inl quietly ↦ absurd (fired-ne-quiet (ap (λ r. r.0) (sym h ∙ quietly)))
        | inr (inl raising) ↦ absurd (fired-ne-raised (ap (λ r. r.0) (sym h ∙ raising)))
        | inr (inr (bad, firing)) ↦
            let u : World F =
              (fire env w p now window_minutes node_id (judge env p samples) samples).1 in
            let after : w' ≡ u = ap (λ r. r.1) (sym h ∙ firing) in
            subst
              (λ x.
                evaluate_samples env x p later window_minutes node_id
                  (policy_samples env x p window_minutes node_id)
                ≡ (quiet, x))
              (sym after)
              (rw (policy_samples-fire w p now window_minutes node_id (judge env p samples) samples)
                (evaluate_samples-cooling u p later window_minutes node_id samples (
                  cooling-fire w p now later window_minutes node_id (judge env p samples) samples
                    span positive finite soon)))
      ]

  -- What a run of the evaluator must leave alone: all but the logs, the policies and the count of
  -- identifiers.
  pub record SameElsewhere (w w' : World F) : Type 0 where
    pub metrics : w'.metrics ≡ w.metrics
    pub job_registry : w'.job_registry ≡ w.job_registry
    pub lifecycle : w'.lifecycle ≡ w.lifecycle
    pub custom : w'.custom ≡ w.custom

  -- Every alert that was added belongs to a finding, in order.
  abbrev pub Logged : World F → World F → List (Anomaly F) → Type 0
  Logged w w' found =
      SameElsewhere w w' × (w'.alert_log ≡ foldl add_alert w.alert_log (map (λ a. a.alert) found))

  pub refl-SameElsewhere : (w : World F) → SameElsewhere w w
  refl-SameElsewhere w = record {
    metrics = refl;
    job_registry = refl;
    lifecycle = refl;
    custom = refl;
  }

  -- What the evaluation on one node logs, by its outcome.
  abbrev pub LogsOutcome : World F → Outcome F × World F → Type 0
  LogsOutcome w (quiet, w') = Logged w w' []
  LogsOutcome w (raised, w') = Logged w w' []
  LogsOutcome w (fired a, w') = Logged w w' (a ∷ [])

  -- The evaluation of a policy on a node adds the alert of its finding to the alert log, and nothing
  -- where it is quiet or raises; metrics, jobs, lifecycle entries and custom metrics stay as they are.
  pub evaluate_node-LogsOutcome :
      (w : World F) (p : Policy F) (now window_minutes : ℕ) (node_id : String)
      → LogsOutcome w (evaluate_node env w p now window_minutes node_id)
  unfolding evaluate_node
  evaluate_node-LogsOutcome w p now window_minutes node_id =
      let samples = policy_samples env w p window_minutes node_id in
      elim (evaluate_samples-Ends w p now window_minutes node_id samples) [
        | inl quietly ↦ subst (LogsOutcome w) (sym quietly) (refl-SameElsewhere w, refl)
        | inr (inl raising) ↦ subst (LogsOutcome w) (sym raising) (refl-SameElsewhere w, refl)
        | inr (inr (bad, firing)) ↦ subst (LogsOutcome w) (sym firing) (
            unfold fire emit in
            (record { metrics = refl; job_registry = refl; lifecycle = refl; custom = refl }, refl))
      ]
