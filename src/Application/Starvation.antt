-- ===== src/Application/Starvation.antt =====
-- An alert that cannot be diagnosed, in the rounds of `_auto_diagnosis_loop` of backend/app/main.py.
use solprobe.Prelude.{
  ℕ, ◌≡◌, refl, ap, sym, subst, ◌∙◌, String, true, false, none, some, List, [], ◌∷◌, All,
}
use solprobe.Prelude.Floats.{Floats}
use solprobe.Models.Alerts.{Alert}
use solprobe.Stores.Alerts.{query}
use solprobe.Stores.World.{World}
use solprobe.Diagnosis.Fingerprint.{alert_fingerprint}
use solprobe.Diagnosis.Store.{get_by_alert_id}
use solprobe.Diagnosis.Agent.Flow.{Agent, Tools, diagnose}
use solprobe.Application.Diagnoses.{Draw, Round, skips, diagnose_all, auto_diagnosis_round}

module _ (fl : Floats) (tools : Tools fl) where
  open fl use {F}

  -- What a round takes from outside: the stores, the clock and the draws.
  abbrev pub Setting : Type 0
  Setting = World F × ℕ × (String → Draw F)

  -- Rounds one after the other.
  unfoldable pub rounds : Agent fl → List Setting → List (Round fl)
  unfolding auto_diagnosis_round
  rounds agent [] = []
  rounds agent ((w, now_ms, draw) ∷ rest) =
      let round = auto_diagnosis_round fl tools w now_ms draw agent in
      round ∷ rounds round.agent rest

  -- The alert is the newest of the critical ones.
  abbrev pub Leads : Alert F → Setting → Type 0
  Leads a (w, now_ms, draw) =
      (rest : List (Alert F)) × (query w.alert_log none (some "CRITICAL") none 20 ≡ a ∷ rest)

  diagnose_all-raises :
      (w : World F) (now_ms : ℕ) (draw : String → Draw F) (agent : Agent fl) (a : Alert F)
      (rest : List (Alert F))
      → alert_fingerprint fl tools.texts a ≡ none
      → get_by_alert_id agent.store a.alert_id ≡ none
      → diagnose_all fl tools w now_ms draw agent (a ∷ rest)
        ≡ record { raised = true; broadcast = []; agent = agent }
  unfolding diagnose_all skips diagnose
  diagnose_all-raises w now_ms draw agent a rest bad new =
      let asked : skips fl tools agent now_ms a ≡ false = rw (new, skips) refl in
      let fails : diagnose fl tools agent w (draw a.alert_id).times (draw a.alert_id).diagnosis_id a
            false
          ≡ (none, agent) =
        rw (bad, diagnose) refl in
      let result : (diagnose fl tools agent w (draw a.alert_id).times (draw a.alert_id).diagnosis_id
            a false).0
          ≡ none =
        ap (λ r. r.0) fails in
      let kept : (diagnose fl tools agent w (draw a.alert_id).times (draw a.alert_id).diagnosis_id a
            false).1
          ≡ agent =
        ap (λ r. r.1) fails in
      rw (asked, result)
        (ap (λ (x : Agent fl). record { raised = true; broadcast = []; agent = x }) kept)

  -- If the newest critical alert has no fingerprint and no diagnosis, then every round of the automatic
  -- loop raises, however many there are: none broadcasts a diagnosis, and the agent with its store and
  -- its limiter stays as it was, so that none of the alerts behind is diagnosed either.
  pub rounds-Leads :
      (agent : Agent fl) (a : Alert F) (settings : List Setting)
      → alert_fingerprint fl tools.texts a ≡ none
      → get_by_alert_id agent.store a.alert_id ≡ none
      → All (Leads a) settings
      → All
          (λ r. r ≡ record { raised = true; broadcast = []; agent = agent })
          (rounds agent settings)
  unfolding rounds auto_diagnosis_round
  rounds-Leads agent a [] bad new h = tt
  rounds-Leads agent a ((w, now_ms, draw) ∷ settings) bad new ((rest, first), h) =
      let same : auto_diagnosis_round fl tools w now_ms draw agent
          ≡ record { raised = true; broadcast = []; agent = agent } =
        ap (diagnose_all fl tools w now_ms draw agent) first
        ∙ diagnose_all-raises w now_ms draw agent a rest bad new in
      (
        same,
        subst
            (λ x.
              All (λ r. r ≡ record { raised = true; broadcast = []; agent = agent })
                (rounds x settings))
            (sym (ap (λ r. r.agent) same)) (rounds-Leads agent a settings bad new h),
      )
