-- ===== src/Detectors/Policy/Conditions.antt =====
-- `_compare`, `_sustained_violation` and `_stale_for` of policy_evaluator.py.
use solprobe.Prelude.{
  ℕ, Bool, false, not, ◌&&◌, Option, none, some, List, [], ◌∷◌, reverse, if◌then◌else◌,
}
use solprobe.Prelude.Int.{pos, sub_ℕ}
use solprobe.Prelude.Floats.{Floats}
use solprobe.Models.Policies.{Operator, gt, gte, lt, lte, abs_gt, stale_for}
use solprobe.Detectors.Policy.Readers.{Sample}

-- (violated, duration_seconds, latest_value)
pub record Verdict (F : Type 0) : Type 0 where
  pub violated : Bool
  pub duration_seconds : F
  pub latest_value : F

-- The walk back from the newest sample while `test` holds: the time stamp of the oldest one
-- reached. The samples come newest first.
unfoldable pub earliest_ts : {F : Type 0} → (Option F → Bool) → ℕ → List (Sample F) → ℕ
earliest_ts test t [] = t
earliest_ts test t (s ∷ rest) = if test s.value then earliest_ts test s.timestamp_ms rest else t

module _ (fl : Floats) where
  open fl use {F, le, eq, div, abs, of_int}

  unfoldable pub compare : Operator → F → F → Bool
  compare gt value threshold = fl.lt threshold value
  compare gte value threshold = le threshold value
  compare lt value threshold = fl.lt value threshold
  compare lte value threshold = le value threshold
  compare abs_gt value threshold = fl.lt threshold (abs value)
  compare stale_for value threshold = false

  -- `val is not None and _compare(operator, val, threshold)`
  unfoldable pub violates : Operator → F → Option F → Bool
  unfolding compare
  violates op threshold none = false
  violates op threshold (some v) = compare op v threshold

  -- `val is not None and val == last_val`
  unfoldable pub equals : F → Option F → Bool
  equals last none = false
  equals last (some v) = eq v last

  abbrev pub zero_f : F
  zero_f = of_int (pos 0)

  -- `(last_ts - earliest_ts) / 1000.0`
  unfoldable pub seconds : ℕ → ℕ → F
  seconds last earliest = div (of_int (sub_ℕ last earliest)) (of_int (pos 1000))

  abbrev or_zero : Option F → F
  or_zero none = zero_f
  or_zero (some v) = v

  -- The samples newest first.
  unfoldable pub sustained_from : List (Sample F) → Operator → F → F → Verdict F
  unfolding violates seconds earliest_ts
  sustained_from [] op threshold for_seconds = record {
    violated = false;
    duration_seconds = zero_f;
    latest_value = zero_f;
  }
  sustained_from (last ∷ rest) op threshold for_seconds =
      if violates op threshold last.value
      then (let earliest = earliest_ts (violates op threshold) last.timestamp_ms rest in
          let duration = seconds last.timestamp_ms earliest in
          record {
            violated = not (fl.lt zero_f for_seconds && fl.lt duration for_seconds);
            duration_seconds = duration;
            latest_value = or_zero last.value;
          })
      else record { violated = false; duration_seconds = zero_f; latest_value = or_zero last.value }

  unfoldable pub sustained_violation : List (Sample F) → Operator → F → F → Verdict F
  unfolding sustained_from
  sustained_violation samples = sustained_from (reverse samples)

  unfoldable pub stale_from : List (Sample F) → F → Verdict F
  unfolding equals seconds earliest_ts
  stale_from [] for_seconds = record {
    violated = false;
    duration_seconds = zero_f;
    latest_value = zero_f;
  }
  stale_from (last ∷ rest) for_seconds = elim last.value [
    | none ↦ record { violated = false; duration_seconds = zero_f; latest_value = zero_f }
    | some v ↦
        let duration = seconds last.timestamp_ms (earliest_ts (equals v) last.timestamp_ms rest) in
        record {
          violated = not (fl.lt duration for_seconds);
          duration_seconds = duration;
          latest_value = v;
        }
  ]

  -- `_stale_for`
  unfoldable pub stale_run : List (Sample F) → F → Verdict F
  unfolding stale_from
  stale_run samples = stale_from (reverse samples)
