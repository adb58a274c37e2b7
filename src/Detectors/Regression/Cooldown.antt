-- ===== src/Detectors/Regression/Cooldown.antt =====
-- The suppression of repeated alerts in backend/app/detectors/throughput_regression.py.
use solprobe.Prelude.{
  ℕ, ◌≡◌, refl, String, true, false, none, some, last?, Bool-cases, inl, inr, ◌⊎◌, string_eq,
}
use solprobe.Prelude.Int.{pos}
use solprobe.Prelude.Dict.{Dict, get, put, get-put_self}
use solprobe.Models.Alerts.{Anomaly}
use solprobe.Stores.Metrics.{get_training_history}
use solprobe.Stores.World.{World, Env, emit}
use solprobe.Detectors.Zscore.{Stats}
use solprobe.Detectors.Regression.{
  recent_median, baseline_median, job_of, regression, has_regressed, cooling, check_node,
}

module _ (env : Env) (stats : Stats env.floats.F) (round_to : ℕ → env.floats.F → env.floats.F) where
  open env use {floats}
  open floats use {F, lt, sub, literal}

  -- A check reports nothing and changes nothing; or it reports, and then every check of the node in
  -- the next two minutes, whatever the stores hold by then, reports nothing and changes nothing.
  pub check_node_lem :
      (w : World F) (last_alerted : Dict String F) (now : F) (now_ms : ℕ) (node_id : String)
      → (check_node env stats round_to w last_alerted now now_ms node_id ≡ (none, w, last_alerted))
        ⊎ ((a : Anomaly F) × (noted : Dict String F) × (check_node env stats round_to w last_alerted
                now now_ms node_id
              ≡ (some a, emit w a, noted))
            × ((v : World F) (later : F) (later_ms : ℕ)
                → (lt (sub later now) (literal (pos 1200) 1) ≡ false)
                  ⊎ (check_node env stats round_to v noted later later_ms node_id
                      ≡ (none, v, noted))))
  unfolding check_node
  check_node_lem w last_alerted now now_ms node_id =
      let history = get_training_history w.metrics node_id 5 in
      elim (Bool-cases (has_regressed env stats round_to history)) [
        | inr fine ↦ inl (rw (fine, check_node) refl)
        | inl regressed ↦
            elim (Bool-cases (cooling env stats round_to (get node_id last_alerted) now)) [
              | inl held ↦ inl (rw (regressed, held, check_node) refl)
              | inr free ↦
                  let noted = put node_id now last_alerted in
                  inr (
                    regression env stats round_to (env.uuid w.issued) now_ms node_id
                        (recent_median env stats round_to history)
                        (baseline_median env stats round_to history)
                        (job_of env stats round_to (last? history)),
                    noted,
                    rw (regressed, free, check_node) refl,
                    λ v later later_ms.
                        elim (Bool-cases (lt (sub later now) (literal (pos 1200) 1))) [
                          | inr late ↦ inl late
                          | inl soon ↦
                              let held : cooling env stats round_to (get node_id noted) later
                                  ≡ true =
                                rw (get-put_self node_id now last_alerted) soon in
                              elim (Bool-cases (
                                has_regressed env stats round_to
                                  (get_training_history v.metrics node_id 5))) [
                                    | inl again ↦ inr (rw (again, held, check_node) refl)
                                    | inr fine ↦ inr (rw (fine, check_node) refl)
                                  ]
                        ],
                  )
            ]
      ]
