-- ===== src/Training/Simulate/Main.antt =====
-- The scenarios of training/simulate.py as a whole, and `main`.
pub mod Cleanup
pub mod Explosion
use solprobe.Prelude.{ℕ, min, Bool, true, false, Option, none, some, List, [], ◌∷◌, if◌then◌else◌}
use mathlib.Core.Option
use solprobe.Prelude.Int.{ℤ}
use solprobe.Prelude.Floats.{Floats}
use solprobe.Prelude.Result.{Error, Result, ok, err, kept}
use solprobe.Training.Struct.{Machine, write_start, fresh_file}
use solprobe.Training.Simulate.{
  Files, Turn, Chance, total_steps, play, normal_step, gradient_explosion_step, loss_plateau_step,
}
use solprobe.Training.Simulate.Drift.{diloco_drift_step}

-- The keys of `_SCENARIOS`.
pub data Scenario : Type 0 where
  normal gradient_explosion loss_plateau diloco_drift : Scenario

-- Where the user interrupts the run, after so many steps.
abbrev pub steps_played : ℤ → Option ℕ → ℕ
steps_played duration none = total_steps duration
steps_played duration (some n) = min n (total_steps duration)

abbrev pub has_file : Option (List ℕ) → Bool
has_file none = false
has_file (some file) = true

-- The `finally` block: each file is marked as invalid, and a failure to do so is passed over.
unfoldable pub invalidate : List ℕ → List ℕ
unfolding write_start
invalidate file = kept file (write_start file (0 ∷ []))

abbrev pub invalidate_files : Files → Files
invalidate_files files = record {
  train = invalidate files.train;
  diloco = Option.map invalidate files.diloco;
}

module _ (fl : Floats) (m : Machine fl.F) (ch : Chance fl.F) where
  -- The step of a scenario, given the number of all steps.
  unfoldable pub scenario_step : Scenario → ℕ → ℕ → Files → Turn
  unfolding normal_step gradient_explosion_step loss_plateau_step diloco_drift_step
  scenario_step normal total = normal_step fl m ch total
  scenario_step gradient_explosion total = gradient_explosion_step fl m ch total
  scenario_step loss_plateau total = loss_plateau_step fl m ch total
  scenario_step diloco_drift total = diloco_drift_step fl m ch total

  -- A scenario, which may be interrupted; without its file, `diloco_drift` only prints an error.
  unfoldable pub scenario : Scenario → ℤ → Option ℕ → Files → Turn
  unfolding scenario_step play
  scenario diloco_drift duration interrupt files =
      if has_file files.diloco
      then play (scenario_step diloco_drift (total_steps duration))
          (steps_played duration interrupt) 0 files
      else (none, files)
  scenario s duration interrupt files =
      play (scenario_step s (total_steps duration)) (steps_played duration interrupt) 0 files

  -- `main`, once the formats were verified: the exception that ends the run, and the files.
  unfoldable pub simulate : Scenario → ℤ → Option ℕ → Turn
  unfolding scenario invalidate
  simulate s duration interrupt =
      let (raised, files) =
        scenario s duration interrupt (record { train = fresh_file; diloco = some fresh_file }) in
      (raised, invalidate_files files)
