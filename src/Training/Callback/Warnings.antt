-- ===== src/Training/Callback/Warnings.antt =====
-- How often `log_metric` warns, and an exception that a training step raises.
use solprobe.Prelude.{
  ℕ, ◌+◌, ◌≤◌, ◌≡◌, refl, ap, arith, String, Bool, true, false, Option, none, List, [], ◌∷◌,
  Bool-cases, Option-cases, inl, inr, if◌then◌else◌, ◌==◌, string_eq,
}
use solprobe.Training.Callback.{
  Callback, LogOutcome, warned, silent, sending, log_metric, truthy, text_or_none,
}

-- A call: the clock, the name, the value and the job.
abbrev pub MetricCall : Type 0 → Type 0
MetricCall F = ℕ × String × F × Option String

module _ {F : Type 0} (strip : String → String) where
  -- What a series of calls does, call by call.
  pub log_all : Callback F → List (MetricCall F) → List (LogOutcome F)
  unfolding log_metric
  log_all cb [] = []
  log_all cb ((now, name, value, job_id) ∷ calls) =
      let (cb', logged) = log_metric strip now cb name value none none [] job_id in
      logged ∷ log_all cb' calls

  abbrev is_warning : LogOutcome F → ℕ
  is_warning warned = 1
  is_warning silent = 0
  is_warning (sending r) = 0

  abbrev pub warnings : List (LogOutcome F) → ℕ
  warnings [] = 0
  warnings (l ∷ ls) = is_warning l + warnings ls

  -- how many warnings a callback has left
  abbrev left : Callback F → ℕ
  left cb = if cb.log_metric_warned then 0 else 1

  abbrev Spends : Callback F → Callback F × LogOutcome F → Type 0
  Spends cb r = is_warning r.1 + left r.0 ≡ left cb

  Spends-if :
      (cb : Callback F) (c : Bool)
      → c ≡ cb.log_metric_warned
      → Spends cb (if c then (cb, silent) else (record cb { log_metric_warned = true }, warned))
  Spends-if cb true h = omega arith
  Spends-if cb false h = ap (λ (b : Bool). if b then 0 else 1) h

  log_metric-Spends :
      (now : ℕ) (cb : Callback F) (name : String) (value : F) (job_id : Option String)
      → Spends cb (log_metric strip now cb name value none none [] job_id)
  unfolding log_metric
  log_metric-Spends now cb name value job_id =
      let warning = Spends-if cb cb.log_metric_warned refl in
      elim (Option-cases (truthy (text_or_none job_id cb.job_id))) [
        | inl e ↦ rw (e, log_metric) warning
        | inr (job, e) ↦ elim (Bool-cases (cb.backend_url == "")) [
          | inl t ↦ rw (e, log_metric, t) warning
          | inr f ↦ rw (e, log_metric, f) (omega arith)
        ]
      ]

  warnings-left :
      (cb : Callback F) (calls : List (MetricCall F)) → warnings (log_all cb calls) ≤ left cb
  unfolding log_all
  warnings-left cb [] = omega arith
  warnings-left cb ((now, name, value, job_id) ∷ calls) =
      let (cb', logged) = log_metric strip now cb name value none none [] job_id in
      omega (arith, log_metric-Spends now cb name value job_id, warnings-left cb' calls)

  -- However many metrics are logged, a callback warns at most once.
  pub warnings-log_all :
      (cb : Callback F) (calls : List (MetricCall F)) → warnings (log_all cb calls) ≤ 1
  warnings-log_all cb calls = ground (arith, warnings-left cb calls)
