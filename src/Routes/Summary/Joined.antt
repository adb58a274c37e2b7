-- ===== src/Routes/Summary/Joined.antt =====
-- What the summary of a job joins.
use mathlib.Core.Option.{some-injective}
use solprobe.Prelude.{
  ℕ, ◌≡◌, refl, subst, String, Bool, true, false, Option, none, some, List, [], ◌∷◌, map, reverse,
  ◌==◌, string_eq, option_eq, contains, All, All-filter_by, Bool-cases, Option-cases, inl, inr,
  arith, eq_iff, leb, false≢true,
}
use solprobe.Prelude.Dict.Order.{Distinct}
use solprobe.Models.Metrics.{TrainingMetrics}
use solprobe.Models.Alerts.{Alert}
use solprobe.Models.Diagnoses.{DiagnosisResult}
use solprobe.Stores.Jobs.{Job, get_job}
use solprobe.Stores.Metrics.{MetricsStore, get_node_status}
use solprobe.Stores.Alerts.{query}
use solprobe.Stores.World.{World}
use solprobe.Diagnosis.Store.{DiagnosisStore, first_with, get_by_alert_id}
use solprobe.Routes.{replied}
use solprobe.Routes.Summary.{
  Summary, Latest, newer_training, look_at, latest_of, job_alerts, joined, run_duration,
  get_job_summary,
}

module _ {F : Type 0} where
  first_with-passes :
      (test : DiagnosisResult F → Bool) (ds : List (DiagnosisResult F)) (d : DiagnosisResult F)
      → first_with test ds ≡ some d
      → test d ≡ true
  unfolding first_with
  first_with-passes test [] d h = cc
  first_with-passes test (x ∷ ds) d h = elim (Bool-cases (test x)) [
    | inl hit ↦ subst (λ y. test y ≡ true) (some-injective x d (rw hit at h)) hit
    | inr miss ↦ first_with-passes test ds d (rw miss at h)
  ]

  abbrev pub ids : List (DiagnosisResult F) → List String
  ids ds = map (λ d. d.diagnosis_id) ds

  alert_id-get_by_alert_id :
      (store : DiagnosisStore F) (alert_id : String) (d : DiagnosisResult F)
      → get_by_alert_id store alert_id ≡ some d
      → d.alert_id == alert_id ≡ true
  unfolding get_by_alert_id
  alert_id-get_by_alert_id store alert_id d h =
      first_with-passes (λ x. x.alert_id == alert_id) (reverse store.diagnoses) d h

  -- Nothing that was seen is joined again.
  joined-fresh :
      (store : DiagnosisStore F) (seen : List String) (alerts : List (Alert F)) (j : String)
      → contains seen j ≡ true
      → contains (ids (joined store seen alerts)) j ≡ false
  unfolding joined
  joined-fresh store seen [] j h = refl
  joined-fresh store seen (a ∷ rest) j h = elim (Option-cases (get_by_alert_id store a.alert_id)) [
    | inl e ↦ rw (e, joined) (joined-fresh store seen rest j h)
    | inr (d, e) ↦ elim (Bool-cases (contains seen d.diagnosis_id)) [
      | inl old ↦ rw (e, old, joined) (joined-fresh store seen rest j h)
      | inr new ↦
          let later = joined-fresh store (d.diagnosis_id ∷ seen) rest j (ground (arith, h)) in
          let differs : j == d.diagnosis_id ≡ false = ground (arith, eq_iff j d.diagnosis_id) in
          rw (e, new, joined, differs) later
    ]
  ]

  joined-Distinct :
      (store : DiagnosisStore F) (seen : List String) (alerts : List (Alert F))
      → Distinct (ids (joined store seen alerts))
  unfolding joined
  joined-Distinct store seen [] = tt
  joined-Distinct store seen (a ∷ rest) = elim (Option-cases (get_by_alert_id store a.alert_id)) [
    | inl e ↦ rw (e, joined) (joined-Distinct store seen rest)
    | inr (d, e) ↦ elim (Bool-cases (contains seen d.diagnosis_id)) [
      | inl old ↦ rw (e, old, joined) (joined-Distinct store seen rest)
      | inr new ↦
          let here : contains (d.diagnosis_id ∷ seen) d.diagnosis_id ≡ true =
            ground (arith, eq_iff d.diagnosis_id d.diagnosis_id) in
          rw (e, new, joined)
            (
              joined-fresh store (d.diagnosis_id ∷ seen) rest d.diagnosis_id here,
              joined-Distinct store (d.diagnosis_id ∷ seen) rest,
            )
    ]
  ]

  joined-listed :
      (store : DiagnosisStore F) (seen listed : List String) (alerts : List (Alert F))
      → ((j : String) → contains (map (λ a. a.alert_id) alerts) j ≡ true → contains listed j ≡ true)
      → All (λ d. contains listed d.alert_id ≡ true) (joined store seen alerts)
  unfolding joined
  joined-listed store seen listed [] h = tt
  joined-listed store seen listed (a ∷ rest) h =
      let smaller : (j : String)
          → contains (map (λ x. x.alert_id) rest) j ≡ true
          → contains listed j ≡ true =
        λ j there. h j (ground (arith, there)) in
      elim (Option-cases (get_by_alert_id store a.alert_id)) [
        | inl e ↦ rw (e, joined) (joined-listed store seen listed rest smaller)
        | inr (d, e) ↦ elim (Bool-cases (contains seen d.diagnosis_id)) [
          | inl old ↦ rw (e, old, joined) (joined-listed store seen listed rest smaller)
          | inr new ↦
              let same = alert_id-get_by_alert_id store a.alert_id d e in
              rw (e, new, joined)
                (
                  h d.alert_id (ground (arith, same)),
                  joined-listed store (d.diagnosis_id ∷ seen) listed rest smaller,
                )
        ]
      ]

  -- A sample is not newer than the chosen one.
  abbrev pub not_newer : Option (TrainingMetrics F) → Option (TrainingMetrics F) → Bool
  not_newer none latest = true
  not_newer (some t) none = false
  not_newer (some t) (some l) = leb t.timestamp_ms l.timestamp_ms

  abbrev pub training_of : MetricsStore F → String → Option (TrainingMetrics F)
  training_of metrics node_id = elim (get_node_status metrics node_id) [
    | none ↦ none
    | some status ↦ status.latest_training
  ]

  not_newer-newer_training :
      (o latest next : Option (TrainingMetrics F))
      → not_newer o latest ≡ true
      → not_newer o (newer_training latest next) ≡ true
  unfolding newer_training
  not_newer-newer_training none latest next h = refl
  not_newer-newer_training (some t) none next h = absurd (false≢true h)
  not_newer-newer_training (some t) (some l) none h = h
  not_newer-newer_training (some t) (some l) (some n) h = ground (arith, h)

  not_newer-newer_training_self :
      (latest next : Option (TrainingMetrics F))
      → not_newer next (newer_training latest next) ≡ true
  unfolding newer_training
  not_newer-newer_training_self latest none = refl
  not_newer-newer_training_self none (some n) = ground arith
  not_newer-newer_training_self (some l) (some n) = ground arith

  not_newer-look_at :
      (metrics : MetricsStore F) (latest : Latest F) (n : String) (o : Option (TrainingMetrics F))
      → not_newer o latest.0 ≡ true
      → not_newer o (look_at metrics latest n).0 ≡ true
  unfolding look_at
  not_newer-look_at metrics latest n o h = elim (Option-cases (get_node_status metrics n)) [
    | inl e ↦ rw (e, look_at) h
    | inr (status, e) ↦
        rw (e, look_at) (not_newer-newer_training o latest.0 status.latest_training h)
  ]

  not_newer-look_at_own :
      (metrics : MetricsStore F) (latest : Latest F) (n : String)
      → not_newer (training_of metrics n) (look_at metrics latest n).0 ≡ true
  unfolding look_at
  not_newer-look_at_own metrics latest n = elim (Option-cases (get_node_status metrics n)) [
    | inl e ↦ rw (e, training_of, look_at) refl
    | inr (status, e) ↦
        rw (e, training_of, look_at) (not_newer-newer_training_self latest.0 status.latest_training)
  ]

  not_newer-latest_of :
      (metrics : MetricsStore F) (nodes : List String) (latest : Latest F)
      (o : Option (TrainingMetrics F))
      → not_newer o latest.0 ≡ true
      → not_newer o (latest_of metrics latest nodes).0 ≡ true
  unfolding latest_of
  not_newer-latest_of metrics [] latest o h = h
  not_newer-latest_of metrics (n ∷ nodes) latest o h =
      not_newer-latest_of metrics nodes (look_at metrics latest n) o
        (not_newer-look_at metrics latest n o h)

  latest_of-Newest :
      (metrics : MetricsStore F) (nodes : List String) (latest : Latest F)
      → All (λ n. not_newer (training_of metrics n) (latest_of metrics latest nodes).0 ≡ true) nodes
  unfolding latest_of
  latest_of-Newest metrics [] latest = tt
  latest_of-Newest metrics (n ∷ nodes) latest = (
    not_newer-latest_of metrics nodes (look_at metrics latest n) (training_of metrics n)
        (not_newer-look_at_own metrics latest n),
    latest_of-Newest metrics nodes (look_at metrics latest n),
  )

  job_alerts-of :
      (w : World F) (job_id : String)
      → All (λ a. a.job_id == some job_id ≡ true) (job_alerts w job_id)
  unfolding job_alerts
  job_alerts-of w job_id =
      All-filter_by (λ (a : Alert F). a.job_id == some job_id)
        (query w.alert_log none none none 1000)

  -- The summary of a job that is registered is given: its alerts all carry the job, its diagnoses are
  -- all of those alerts and none stands twice, and no node of the job has a training sample newer than
  -- the one that is given.
  pub get_job_summary_lem :
      (w : World F) (diagnoses : DiagnosisStore F) (job_id : String) (now : ℕ) (j : Job)
      → get_job w.job_registry job_id ≡ some j
      → (s : Summary F) × (get_job_summary w diagnoses job_id now ≡ replied 200 s)
        × All (λ a. a.job_id == some job_id ≡ true) s.alerts
        × Distinct (ids s.diagnoses)
        × All (λ d. contains (map (λ a. a.alert_id) s.alerts) d.alert_id ≡ true) s.diagnoses
        × All (λ n. not_newer (training_of w.metrics n) s.latest_training ≡ true) j.node_ids
  unfolding get_job_summary
  get_job_summary_lem w diagnoses job_id now j e =
      let alerts = job_alerts w job_id in
      let latest = latest_of w.metrics (none, none) j.node_ids in
      (
        record {
          job = j;
          latest_training = latest.0;
          latest_hardware = latest.1;
          alerts = alerts;
          diagnoses = joined diagnoses [] alerts;
          run_duration_ms = run_duration j now;
        },
        rw (e, get_job_summary) refl,
        job_alerts-of w job_id,
        joined-Distinct diagnoses [] alerts,
        joined-listed diagnoses [] (map (λ a. a.alert_id) alerts) alerts (λ k there. there),
        latest_of-Newest w.metrics j.node_ids (none, none),
      )
