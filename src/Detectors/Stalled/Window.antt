-- ===== src/Detectors/Stalled/Window.antt =====
-- The window of samples at the latest step, and the restriction to running jobs.
use mathlib.Core.List.{reverse-reverse, append-nil, append_assoc}
use solprobe.Prelude.{
  ℕ, ◌≡◌, refl, sym, ap, ◌∙◌, subst, true, false, Option, none, some, List, [], ◌∷◌, ◌++◌, reverse,
  reverse-cons, ◌==◌, nat_eq, last?, last?-append, All, All-append, Bool-cases, inl, inr,
}
use solprobe.Models.Metrics.{TrainingMetrics}
use solprobe.Detectors.Stalled.{same_step, trailing_same_step_window}

module _ {F : Type 0} where
  abbrev pub AtStep : ℕ → List (TrainingMetrics F) → Type 0
  AtStep step = All (λ m. m.step == step ≡ true)

  -- The step of a sample that ends a walk, if there is one, is another.
  abbrev pub Leaves : ℕ → Option (TrainingMetrics F) → Type 0
  Leaves step none = Unit
  Leaves step (some m) = m.step == step ≡ false

  AtStep-reverse :
      (step : ℕ) (xs : List (TrainingMetrics F)) → AtStep step xs → AtStep step (reverse xs)
  AtStep-reverse step [] h = tt
  AtStep-reverse step (x ∷ xs) h = subst (AtStep step) (sym (reverse-cons x xs)) (
      All-append (λ m. m.step == step ≡ true) (reverse xs) (x ∷ []) (AtStep-reverse step xs h.1)
        (h.0, tt))

  -- What the walk leaves out, reversed: its last sample is at another step.
  same_step-split :
      (step : ℕ) (xs : List (TrainingMetrics F))
      → (older : List (TrainingMetrics F)) × (reverse xs ≡ older ++ reverse (same_step step xs))
        × AtStep step (same_step step xs)
        × Leaves step (last? older)
  unfolding same_step
  same_step-split step [] = ([], refl, tt, tt)
  same_step-split step (x ∷ xs) = elim (Bool-cases (x.step == step)) [
    | inl same ↦
        let (older, split, at_step, leaves) = same_step-split step xs in
        (
          older,
          reverse-cons x xs
              ∙ ap (λ l. l ++ x ∷ []) split
              ∙ append_assoc older (reverse (same_step step xs)) (x ∷ [])
              ∙ ap (λ l. older ++ l) (sym (reverse-cons x (same_step step xs)))
              ∙ rw same refl,
          rw same (same, at_step),
          leaves,
        )
    | inr other ↦ (
      reverse (x ∷ xs),
      rw other (sym (append-nil (reverse (x ∷ xs)))),
      rw other tt,
      subst (Leaves step) (sym (ap last? (reverse-cons x xs) ∙ last?-append (reverse xs) x)) other,
    )
  ]

  -- The window is a suffix of the history, all its samples are at the step of the latest one, and
  -- the sample before it, if there is one, is at another step.
  pub trailing_same_step_window_lem :
      (older : List (TrainingMetrics F)) (latest : TrainingMetrics F)
      → (before : List (TrainingMetrics F)) × (older ++ latest ∷ []
          ≡ before ++ trailing_same_step_window (older ++ latest ∷ []))
        × AtStep latest.step (trailing_same_step_window (older ++ latest ∷ []))
        × Leaves latest.step (last? before)
  unfolding trailing_same_step_window
  trailing_same_step_window_lem older latest =
      let history = older ++ latest ∷ [] in
      let (before, split, at_step, leaves) = same_step-split latest.step (reverse history) in
      rw (last?-append older latest, trailing_same_step_window)
        (
          before,
          sym (reverse-reverse history) ∙ split,
          AtStep-reverse latest.step (same_step latest.step (reverse history)) at_step,
          leaves,
        )
