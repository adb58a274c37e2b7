-- ===== src/Detectors/Zscore/Once.antt =====
-- One run of backend/app/detectors/zscore.py raises an alert of a type on a node once.
use solprobe.Prelude.{
  ℕ, ◌≡◌, refl, sym, ◌∙◌, subst, true, false, none, some, List, [], ◌∷◌, map, ◌==◌, string_eq,
  pair_eq, contains, Bool-cases, inl, inr, ◌⊎◌, false≢true,
}
use solprobe.Prelude.Int.{pos}
use solprobe.Prelude.Dict.{Dict, get, put, get-put, get-put_self}
use solprobe.Prelude.Dict.Order.{Distinct}
use solprobe.Models.Alerts.{Anomaly}
use solprobe.Stores.World.{World, Env, emit}
use solprobe.Stores.Metrics.{get_node_ids}
use solprobe.Detectors.Zscore.{
  Stats, Probe, DedupKey, dedup_key, compute_zscore, series_of, exceeds, suppressed, zscore_anomaly,
  score_or_zero, check, check_all, probes, run_zscore_detection,
}

module _ (env : Env) (stats : Stats env.floats.F) (clock : Probe → env.floats.F) where
  open env use {floats}
  open floats use {F, lt, sub, literal}

  -- The node and the type of a finding.
  abbrev pub key_of : Anomaly F → DedupKey
  key_of a = (a.alert.node_id, a.alert.alert_type)

  abbrev pub keys_of : List (Anomaly F) → List DedupKey
  keys_of found = map key_of found

  -- No turn of the run is as late as sixty seconds after the noted time of the key.
  abbrev pub Held : Dict DedupKey F → DedupKey → Type 0
  Held last_alerted k =
      (v : F) × (get k last_alerted ≡ some v)
      × ((q : Probe) → lt (sub (clock q) v) (literal (pos 600) 1) ≡ true)

  -- A turn is quiet and changes nothing, or it reports under its key, which was not held, and holds
  -- that key and all others from then on.
  abbrev pub Turn : World F → Dict DedupKey F → ℕ → Probe → Type 0
  Turn w last_alerted now_ms p =
      (check env stats w last_alerted (clock p) now_ms p ≡ (none, w, last_alerted))
      ⊎ ((a : Anomaly F) × (w' : World F) × (check env stats w last_alerted (clock p) now_ms p
            ≡ (some a, w', put (dedup_key p) (clock p) last_alerted))
          × (key_of a ≡ dedup_key p)
          × (suppressed env stats (get (dedup_key p) last_alerted) (clock p) ≡ false))

  check-Turn :
      (w : World F) (last_alerted : Dict DedupKey F) (now_ms : ℕ) (p : Probe)
      → Turn w last_alerted now_ms p
  unfolding check zscore_anomaly dedup_key
  check-Turn w last_alerted now_ms p =
      elim (Bool-cases (exceeds env stats (compute_zscore env stats (series_of env stats w p)))) [
        | inr low ↦ inl (rw (low, check) refl)
        | inl high ↦
            elim (Bool-cases (suppressed env stats (get (dedup_key p) last_alerted) (clock p))) [
              | inl held ↦ inl (rw (high, held, check) refl)
              | inr free ↦
                  let z = compute_zscore env stats (series_of env stats w p) in
                  let finding =
                    zscore_anomaly env stats (env.uuid w.issued) now_ms p
                      (score_or_zero env stats z) in
                  inr (finding, emit w finding, rw (high, free, check) refl, refl, free)
            ]
      ]

  suppressed-Held :
      (last_alerted : Dict DedupKey F) (k : DedupKey) (p : Probe)
      → Held last_alerted k
      → suppressed env stats (get k last_alerted) (clock p) ≡ true
  suppressed-Held last_alerted k p (v, e, near) = rw (e, suppressed) (near p)

  Held-put :
      (last_alerted : Dict DedupKey F) (k j : DedupKey) (p : Probe)
      → ((q r : Probe) → lt (sub (clock q) (clock r)) (literal (pos 600) 1) ≡ true)
      → Held last_alerted k
      → Held (put j (clock p) last_alerted) k
  Held-put last_alerted k j p near (v, e, h) = elim (Bool-cases (j == k)) [
    | inl same ↦ (clock p, rw (get-put j k (clock p) last_alerted, same) refl, λ q. near q p)
    | inr other ↦ (v, rw (get-put j k (clock p) last_alerted, other) e, h)
  ]

  -- A key that is held is not reported.
  check_all-Held :
      (w : World F) (last_alerted : Dict DedupKey F) (stamp : Probe → ℕ) (ps : List Probe)
      (k : DedupKey)
      → ((q r : Probe) → lt (sub (clock q) (clock r)) (literal (pos 600) 1) ≡ true)
      → Held last_alerted k
      → contains (keys_of (check_all env stats w last_alerted clock stamp ps).0) k ≡ false
  unfolding check_all
  check_all-Held w last_alerted stamp [] k near h = refl
  check_all-Held w last_alerted stamp (p ∷ ps) k near h =
      elim (check-Turn w last_alerted (stamp p) p) [
        | inl quiet ↦ rw (quiet, check_all) (check_all-Held w last_alerted stamp ps k near h)
        | inr (a, w', fired, named, free) ↦
            let after : Held (put (dedup_key p) (clock p) last_alerted) k =
              Held-put last_alerted k (dedup_key p) p near h in
            let later = check_all-Held w' _ stamp ps k near after in
            let differs : (k == key_of a) ≡ false = elim (Bool-cases (k == key_of a)) [
              | inr other ↦ other
              | inl same ↦
                  let key : k ≡ dedup_key p = (pair_eq.same_iff k (key_of a)).0 same ∙ named in
                  let held =
                    suppressed-Held last_alerted (dedup_key p) p
                      (subst (Held last_alerted) key h) in
                  absurd (false≢true (sym free ∙ held))
            ] in
            rw (fired, check_all, differs) later
      ]

  check_all-Distinct :
      (w : World F) (last_alerted : Dict DedupKey F) (stamp : Probe → ℕ) (ps : List Probe)
      → ((q r : Probe) → lt (sub (clock q) (clock r)) (literal (pos 600) 1) ≡ true)
      → Distinct (keys_of (check_all env stats w last_alerted clock stamp ps).0)
  unfolding check_all
  check_all-Distinct w last_alerted stamp [] near = tt
  check_all-Distinct w last_alerted stamp (p ∷ ps) near =
      elim (check-Turn w last_alerted (stamp p) p) [
        | inl quiet ↦ rw (quiet, check_all) (check_all-Distinct w last_alerted stamp ps near)
        | inr (a, w', fired, named, free) ↦
            let noted = put (dedup_key p) (clock p) last_alerted in
            let held : Held noted (dedup_key p) =
              (clock p, get-put_self (dedup_key p) (clock p) last_alerted, λ q. near q p) in
            let absent = check_all-Held w' noted stamp ps (dedup_key p) near held in
            rw (fired, check_all)
              (
                subst
                    (λ k.
                      contains (keys_of (check_all env stats w' noted clock stamp ps).0) k ≡ false)
                    (sym named) absent,
                check_all-Distinct w' noted stamp ps near,
              )
      ]

  -- If no two turns of a run are sixty seconds apart, a run reports no type of alert twice for the same
  -- node, over all windows and fields and whatever was reported before.
  pub run_zscore_detection-Distinct :
      (w : World F) (last_alerted : Dict DedupKey F) (stamp : Probe → ℕ) (finish : F)
      → ((q r : Probe) → lt (sub (clock q) (clock r)) (literal (pos 600) 1) ≡ true)
      → Distinct (keys_of (run_zscore_detection env stats w last_alerted clock stamp finish).0)
  unfolding run_zscore_detection
  run_zscore_detection-Distinct w last_alerted stamp finish near =
      check_all-Distinct w last_alerted stamp (probes (get_node_ids w.metrics)) near
