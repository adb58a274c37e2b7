-- ===== src/Detectors/Policy/Runs.antt =====
-- The verdict on a policy's condition, against the trailing run of samples that violate it.
use solprobe.Prelude.{
  ℕ, ◌≡◌, refl, ap, ◌∙◌, Bool, true, false, not, ◌&&◌, Option, List, [], ◌∷◌, ◌++◌, reverse,
  reverse-cons, reverse-append, snoc_cases, arith, if◌then◌else◌, Bool-cases, inl, inr,
}
use solprobe.Prelude.Floats.{Floats}
use solprobe.Models.Policies.{Operator}
use solprobe.Detectors.Policy.Readers.{Sample}
use solprobe.Detectors.Policy.Conditions.{
  Verdict, earliest_ts, violates, zero_f, seconds, sustained_from, sustained_violation,
}

module _ {F : Type 0} where
  pub first_ts : ℕ → List (Sample F) → ℕ
  first_ts t [] = t
  first_ts t (s ∷ rest) = s.timestamp_ms

module _ {F : Type 0} (test : Option F → Bool) where
  pub all_pass : List (Sample F) → Bool
  all_pass [] = true
  all_pass (s ∷ rest) = test s.value && all_pass rest

  -- The longest suffix in which every sample passes: the specification of the walk back.
  pub trailing_run : List (Sample F) → List (Sample F)
  trailing_run [] = []
  trailing_run (s ∷ rest) = if all_pass (s ∷ rest) then s ∷ rest else trailing_run rest

  all_pass-append_one :
      (xs : List (Sample F)) (s : Sample F) → all_pass (xs ++ s ∷ []) ≡ all_pass xs && test s.value
  unfolding all_pass
  all_pass-append_one [] s = ground arith
  all_pass-append_one (x ∷ xs) s = ground (arith, all_pass-append_one xs s)

  all_pass-reverse : (xs : List (Sample F)) → all_pass (reverse xs) ≡ all_pass xs
  unfolding all_pass
  all_pass-reverse [] = refl
  all_pass-reverse (x ∷ xs) =
      ap all_pass (reverse-cons x xs)
      ∙ all_pass-append_one (reverse xs) x
      ∙ ground (arith, all_pass-reverse xs)

  -- Where the walk back ends, if one older sample is added at the far end.
  earliest_ts-append_one :
      (t : ℕ) (ys : List (Sample F)) (s : Sample F)
      → earliest_ts test t (ys ++ s ∷ [])
        ≡ (if all_pass ys && test s.value then s.timestamp_ms else earliest_ts test t ys)
  unfolding earliest_ts all_pass
  earliest_ts-append_one t [] s = ground arith
  earliest_ts-append_one t (y ∷ ys) s = ground (arith, earliest_ts-append_one y.timestamp_ms ys s)

  -- The walk back ends at the first sample of the longest suffix that passes.
  pub earliest_ts-reverse :
      (t : ℕ) (xs : List (Sample F))
      → earliest_ts test t (reverse xs) ≡ first_ts t (trailing_run xs)
  unfolding trailing_run first_ts all_pass
  earliest_ts-reverse t [] = unfold earliest_ts in refl
  earliest_ts-reverse t (x ∷ xs) =
      ap (earliest_ts test t) (reverse-cons x xs)
      ∙ earliest_ts-append_one t (reverse xs) x
      ∙ ground (arith, all_pass-reverse xs, earliest_ts-reverse t xs)

  trailing_run-append_one :
      (xs : List (Sample F)) (s : Sample F)
      → trailing_run (xs ++ s ∷ []) ≡ (if test s.value then trailing_run xs ++ s ∷ [] else [])
  unfolding trailing_run all_pass
  trailing_run-append_one [] s = ground arith
  trailing_run-append_one (x ∷ xs) s =
      ground (arith, all_pass-append_one xs s, trailing_run-append_one xs s)

module _ {F : Type 0} where
  pub nonempty : List (Sample F) → Bool
  nonempty [] = false
  nonempty (s ∷ rest) = true

  pub last_ts : ℕ → List (Sample F) → ℕ
  last_ts t [] = t
  last_ts t (s ∷ rest) = last_ts s.timestamp_ms rest

  nonempty-append_one : (xs : List (Sample F)) (s : Sample F) → nonempty (xs ++ s ∷ []) ≡ true
  unfolding nonempty
  nonempty-append_one [] s = refl
  nonempty-append_one (x ∷ xs) s = refl

  last_ts-append_one :
      (t : ℕ) (xs : List (Sample F)) (s : Sample F) → last_ts t (xs ++ s ∷ []) ≡ s.timestamp_ms
  unfolding last_ts
  last_ts-append_one t [] s = refl
  last_ts-append_one t (x ∷ xs) s = last_ts-append_one x.timestamp_ms xs s

module _ (fl : Floats) where
  open fl use {F}

  -- How long a run of samples lasts, from its first to its last time stamp.
  pub run_seconds : List (Sample F) → F
  unfolding last_ts
  run_seconds [] = zero_f fl
  run_seconds (s ∷ rest) = seconds fl (last_ts s.timestamp_ms rest) s.timestamp_ms

  run_seconds-append_one :
      (run : List (Sample F)) (last : Sample F)
      → run_seconds (run ++ last ∷ [])
        ≡ seconds fl last.timestamp_ms (first_ts last.timestamp_ms run)
  unfolding run_seconds first_ts
  run_seconds-append_one [] last = refl
  run_seconds-append_one (s ∷ run) last =
      ap (λ t. seconds fl t s.timestamp_ms) (last_ts-append_one s.timestamp_ms run last)

  -- The violated flag and the duration that a run of samples comes to.
  abbrev pub SustainedBy : List (Sample F) → F → Verdict F → Type 0
  SustainedBy run for_seconds v =
      (v.violated
        ≡ nonempty run
          && not (fl.lt (zero_f fl) for_seconds && fl.lt (run_seconds run) for_seconds))
      × (v.duration_seconds ≡ run_seconds run)

  sustained-append_one :
      (xs : List (Sample F)) (last : Sample F) (op : Operator) (threshold for_seconds : F)
      → SustainedBy
          (trailing_run (violates fl op threshold) (xs ++ last ∷ []))
          for_seconds
          (sustained_from fl (last ∷ reverse xs) op threshold for_seconds)
  unfolding sustained_from
  sustained-append_one xs last op threshold for_seconds =
      let test : Option F → Bool = violates fl op threshold in
      let run = trailing_run test xs in
      elim (Bool-cases (violates fl op threshold last.value)) [
        | inl bad ↦
            let whole : trailing_run test (xs ++ last ∷ []) ≡ run ++ last ∷ [] =
              rw bad at (trailing_run-append_one test xs last) in
            rw bad (
              rw whole (
                rw
                  (
                    nonempty-append_one run last,
                    run_seconds-append_one run last,
                    earliest_ts-reverse test last.timestamp_ms xs,
                  )
                  (ground arith, refl)))
        | inr good ↦
            let whole : trailing_run test (xs ++ last ∷ []) ≡ [] =
              rw good at (trailing_run-append_one test xs last) in
            rw good (rw whole (unfold nonempty run_seconds in (ground arith, refl)))
      ]

  -- The condition counts as violated exactly if the longest suffix of samples that violate it is not
  -- empty and, for a positive `for_seconds`, lasts that long; the reported duration is that of the
  -- suffix.
  pub sustained_violation-SustainedBy :
      (samples : List (Sample F)) (op : Operator) (threshold for_seconds : F)
      → SustainedBy
          (trailing_run (violates fl op threshold) samples)
          for_seconds
          (sustained_violation fl samples op threshold for_seconds)
  unfolding sustained_violation
  sustained_violation-SustainedBy samples op threshold for_seconds = elim (snoc_cases samples) [
    | inl e ↦ rw e (unfold sustained_from trailing_run nonempty run_seconds in (ground arith, refl))
    | inr (xs, last, e) ↦
        rw (e, reverse-append xs (last ∷ []))
          (sustained-append_one xs last op threshold for_seconds)
  ]
