-- ===== src/Detectors/Diloco/Steps.antt =====
-- backend/app/detectors/diloco.py checks an outer step of a node once.
use solprobe.Prelude.{
  ℕ, ◌≡◌, refl, sym, ap, subst, ◌∙◌, String, Option, none, some, List, [], ltb, string_eq,
  Bool-cases, Option-cases, inl, inr, ◌⊎◌, arith, last?,
}
use solprobe.Prelude.Dict.{Dict, get, put, get-put_self}
use solprobe.Models.Metrics.{DilocoMetrics}
use solprobe.Models.Alerts.{Anomaly}
use solprobe.Stores.Metrics.{get_diloco_history}
use solprobe.Stores.World.{World, Env, emit}
use solprobe.Detectors.Zscore.{Stats}
use solprobe.Detectors.Diloco.{
  Progress, restarted, advanced, unchanged, progress, check_both, check_node, emit_found,
  detect_inner_outer_divergence, detect_sync_duration_spikes,
}

module _ (env : Env) (stats : Stats env.floats.F) where
  open env use {floats}
  open floats use {F}

  metrics-emit_found :
      (w : World F) (o : Option (Anomaly F)) → (emit_found env stats w o).1.metrics ≡ w.metrics
  unfolding emit_found emit
  metrics-emit_found w none = refl
  metrics-emit_found w (some a) = refl

  metrics-check_both :
      (w : World F) (now_ms : ℕ) (node_id : String)
      → (check_both env stats w now_ms node_id).1.metrics ≡ w.metrics
  unfolding check_both detect_inner_outer_divergence detect_sync_duration_spikes
  metrics-check_both w now_ms node_id = metrics-emit_found _ _ ∙ metrics-emit_found w _

  -- What a check of a node whose newest sample is known does.
  check_node-some :
      (w : World F) (last_outer_step : Dict String ℕ) (now_ms : ℕ) (node_id : String)
      (m : DilocoMetrics F)
      → last? (get_diloco_history w.metrics node_id 1) ≡ some m
      → get node_id last_outer_step ≡ some m.outer_step
      → check_node env stats w last_outer_step now_ms node_id ≡ ([], w, last_outer_step)
  unfolding check_node progress
  check_node-some w last_outer_step now_ms node_id m e noted =
      let same : progress env stats m.outer_step (some m.outer_step) ≡ unchanged = ground arith in
      rw (e, check_node, noted, same) refl

  check_node-none :
      (w : World F) (last_outer_step : Dict String ℕ) (now_ms : ℕ) (node_id : String)
      → last? (get_diloco_history w.metrics node_id 1) ≡ none
      → check_node env stats w last_outer_step now_ms node_id ≡ ([], w, last_outer_step)
  unfolding check_node
  check_node-none w last_outer_step now_ms node_id e = rw (e, check_node) refl

  progress-unchanged :
      (current : ℕ) (noted : Option ℕ)
      → progress env stats current noted ≡ unchanged
      → noted ≡ some current
  unfolding progress
  progress-unchanged current none h = cc
  progress-unchanged current (some prev) h = elim (Bool-cases (ltb current prev)) [
    | inl below ↦ let bad : restarted ≡ unchanged = rw below at h in cc
    | inr a ↦ elim (Bool-cases (ltb prev current)) [
      | inl above ↦ let bad : advanced ≡ unchanged = rw (a, above) at h in cc
      | inr b ↦ let same : prev ≡ current = ground (arith, a, b) in ap some same
    ]
  ]

  Progress-cases : (p : Progress env stats) → (p ≡ restarted) ⊎ (p ≡ advanced) ⊎ (p ≡ unchanged)
  Progress-cases restarted = inl refl
  Progress-cases advanced = inr (inl refl)
  Progress-cases unchanged = inr (inr refl)

  check_node-restarted :
      (w : World F) (last_outer_step : Dict String ℕ) (now_ms : ℕ) (node_id : String)
      (m : DilocoMetrics F)
      → last? (get_diloco_history w.metrics node_id 1) ≡ some m
      → progress env stats m.outer_step (get node_id last_outer_step) ≡ restarted
      → check_node env stats w last_outer_step now_ms node_id
        ≡ ([], w, put node_id m.outer_step last_outer_step)
  unfolding check_node
  check_node-restarted w last_outer_step now_ms node_id m e p = rw (e, check_node, p) refl

  check_node-advanced :
      (w : World F) (last_outer_step : Dict String ℕ) (now_ms : ℕ) (node_id : String)
      (m : DilocoMetrics F)
      → last? (get_diloco_history w.metrics node_id 1) ≡ some m
      → progress env stats m.outer_step (get node_id last_outer_step) ≡ advanced
      → check_node env stats w last_outer_step now_ms node_id ≡ (
        (check_both env stats w now_ms node_id).0,
        (check_both env stats w now_ms node_id).1,
        put node_id m.outer_step last_outer_step,
      )
  unfolding check_node
  check_node-advanced w last_outer_step now_ms node_id m e p = rw (e, check_node, p) refl

  -- An outer step of a node is checked once: after a node was checked, whatever steps were noted
  -- before, a second check without new samples finds nothing and changes nothing, also after a
  -- restart of the node at a lower step.
  pub check_node_again :
      (w : World F) (last_outer_step : Dict String ℕ) (now_ms later_ms : ℕ) (node_id : String)
      → check_node env stats
          (check_node env stats w last_outer_step now_ms node_id).1
          (check_node env stats w last_outer_step now_ms node_id).2
          later_ms
          node_id
        ≡ (
          [],
          (check_node env stats w last_outer_step now_ms node_id).1,
          (check_node env stats w last_outer_step now_ms node_id).2,
        )
  check_node_again w last_outer_step now_ms later_ms node_id =
      let Quiet : List (Anomaly F) × World F × Dict String ℕ → Type 0 =
        λ r. check_node env stats r.1 r.2 later_ms node_id ≡ ([], r.1, r.2) in
      elim (Option-cases (last? (get_diloco_history w.metrics node_id 1))) [
        | inl e ↦
            subst Quiet (sym (check_node-none w last_outer_step now_ms node_id e))
              (check_node-none w last_outer_step later_ms node_id e)
        | inr (m, e) ↦
            let noted = put node_id m.outer_step last_outer_step in
            let known = get-put_self node_id m.outer_step last_outer_step in
            elim (Progress-cases (progress env stats m.outer_step (get node_id last_outer_step))) [
              | inl p ↦
                  subst Quiet (sym (check_node-restarted w last_outer_step now_ms node_id m e p))
                    (check_node-some w noted later_ms node_id m e known)
              | inr (inl p) ↦
                  subst Quiet (sym (check_node-advanced w last_outer_step now_ms node_id m e p)) (
                    check_node-some _ noted later_ms node_id m
                      (ap (λ s. last? (get_diloco_history s node_id 1))
                          (metrics-check_both w now_ms node_id)
                        ∙ e)
                      known)
              | inr (inr p) ↦
                  let old = progress-unchanged m.outer_step (get node_id last_outer_step) p in
                  subst Quiet (sym (check_node-some w last_outer_step now_ms node_id m e old))
                    (check_node-some w last_outer_step later_ms node_id m e old)
            ]
      ]
