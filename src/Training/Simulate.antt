-- ===== src/Training/Simulate.antt =====
-- training/simulate.py: the simulator, whose scenarios write to the two files. The clock and the
-- random numbers are parameters; sleeps and printed lines are not modelled, and so neither is the
-- early end of the last round, which only leaves out a sleep.
pub mod Drift
pub mod Main
pub mod Verify
use solprobe.Prelude.{
  ℕ, zero, suc, ◌+◌, ◌-◌, ◌/◌, ◌%◌, ◌==◌, nat_eq, ltb, leb, min, max, Bool, true, false, Option,
  none, some, List, [], ◌∷◌, if◌then◌else◌,
}
use solprobe.Prelude.Int.{ℤ, pos, negsuc}
use solprobe.Prelude.Floats.{Floats}
use solprobe.Prelude.Result.{Error, Result, ok, err, overflow_error}
use solprobe.Training.Struct.{Machine, Item, write_record}
use solprobe.Training.Callback.{training_items}
use solprobe.Training.Diloco.{Values, diloco_items}

-- The mapped files; that of DiLoCo may be missing.
pub record Files : Type 0 where
  pub train : List ℕ
  pub diloco : Option (List ℕ)

-- Whether an exception was raised, and the files.
abbrev pub Turn : Type 0
Turn = Option Error × Files

-- What follows is left out after an exception.
abbrev pub and_then : Turn → (Files → Turn) → Turn
and_then (none, files) next = next files
and_then (some e, files) next = (some e, files)

-- The k-th time stamp and the k-th random number of a step, `random.uniform(low, high)`.
pub record Chance (F : Type 0) : Type 0 where
  pub clock : ℕ → ℕ → ℕ
  pub uniform : ℕ → ℕ → F → F → F

-- duration if duration > 0 else 10_000_000
unfoldable pub total_steps : ℤ → ℕ
total_steps (pos zero) = 10000000
total_steps (pos (suc n)) = suc n
total_steps (negsuc n) = 10000000

-- `for step in range(...)`: the steps that are left, and the next one
unfoldable pub play : (ℕ → Files → Turn) → ℕ → ℕ → Files → Turn
play body zero step files = (none, files)
play body (suc n) step files = and_then (body step files) (play body n (step + 1))

abbrev negated : ℕ → ℤ
negated zero = pos 0
negated (suc n) = negsuc n

abbrev pub train_turn : Files → Result (List ℕ) → Turn
train_turn files (ok file) = (none, record files { train = file })
train_turn files (err e) = (some e, files)

abbrev pub diloco_turn : Files → Result (List ℕ) → Turn
diloco_turn files (ok file) = (none, record files { diloco = some file })
diloco_turn files (err e) = (some e, files)

module _ (fl : Floats) (m : Machine fl.F) (ch : Chance fl.F) where
  open fl use {F, lt, add, sub, mul, div, of_int, literal}

  -- `_jitter` with the k-th random number of a step; the percentage is given by its digits.
  unfoldable pub jitter : ℕ → ℕ → F → ℕ → ℕ → F
  jitter step k value digits places = mul value (
      add (literal (pos 10) 1)
        (ch.uniform step k (literal (negated digits) places) (literal (pos digits) places)))

  -- min(a, b) and max(a, b)
  abbrev pub min_of : F → F → F
  min_of a b = if lt b a then b else a

  abbrev pub max_of : F → F → F
  max_of a b = if lt a b then b else a

  -- min(step / max(total_steps - 1, 1), 1.0)
  unfoldable pub progress_of : ℕ → ℕ → F
  progress_of total step =
      min_of (div (of_int (pos step)) (of_int (pos (max (total - 1) 1)))) (literal (pos 10) 1)

  abbrev learning_rate : F
  learning_rate = literal (pos 3) 4

  abbrev pub base_throughput : F
  base_throughput = literal (pos 50000) 1

  abbrev mfu_pct_of : F → F
  mfu_pct_of throughput = mul (div throughput (literal (pos 150000) 1)) (literal (pos 1000) 1)

  -- The record of a step, with its first time stamp.
  abbrev pub step_items : ℕ → F → F → F → List (Item F)
  step_items step loss grad_norm throughput =
      training_items fl m 1 (ch.clock step 0) (pos step) loss grad_norm learning_rate throughput
        (mfu_pct_of throughput)

  -- `_write_training`
  unfoldable pub write_training : ℕ → F → F → F → Files → Turn
  unfolding write_record
  write_training step loss grad_norm throughput files =
      train_turn files (write_record m files.train (step_items step loss grad_norm throughput))

  -- 4.0 * math.exp(-rate * progress) + floor
  abbrev pub decay : ℤ → ℤ → F → F
  decay rate floor progress =
      add (mul (literal (pos 40) 1) (m.exp (mul (literal rate 1) progress))) (literal floor 1)

  -- A step of `scenario_normal`.
  unfoldable pub normal_step : ℕ → ℕ → Files → Turn
  unfolding jitter progress_of write_training
  normal_step total step =
      write_training step (jitter step 0 (decay (negsuc 34) (pos 5) (progress_of total step)) 3 2)
        (jitter step 1 (literal (pos 10) 1) 15 2) (jitter step 2 base_throughput 5 2)

  -- 10 ** ((step - 200) / 20.0), which may be too large
  unfoldable pub spike_power : ℕ → Option F
  spike_power step =
      m.power (of_int (pos 10)) (div (of_int (pos (step - 200))) (literal (pos 200) 1))

  abbrev pub spike_turn : ℕ → ℕ → Option F → Files → Turn
  spike_turn total step none files = (some overflow_error, files)
  spike_turn total step (some power) files =
      let spike = min_of power (literal (pos 1000000) 0) in
      let loss = decay (negsuc 34) (pos 5) (progress_of total step) in
      write_training step (jitter step 0 (add loss (mul spike (literal (pos 1) 3))) 3 2) spike
        (jitter step 1 base_throughput 5 2) files

  -- A step of `scenario_gradient_explosion`.
  unfoldable pub gradient_explosion_step : ℕ → ℕ → Files → Turn
  unfolding jitter progress_of write_training spike_power
  gradient_explosion_step total step files =
      if ltb step 200
      then write_training step
          (jitter step 1 (decay (negsuc 34) (pos 5) (progress_of total step)) 3 2)
          (jitter step 0 (literal (pos 10) 1) 15 2) (jitter step 2 base_throughput 5 2) files
      else spike_turn total step (spike_power step) files

  -- min(100, total_steps // 3)
  abbrev plateau_start : ℕ → ℕ
  plateau_start total = min 100 (total / 3)

  abbrev descent : ℕ → ℕ → F
  descent start step =
      sub (literal (pos 40) 1)
        (mul (literal (pos 20) 1) (div (of_int (pos step)) (of_int (pos (max (start - 1) 1)))))

  -- A step of `scenario_loss_plateau`.
  unfoldable pub loss_plateau_step : ℕ → ℕ → Files → Turn
  unfolding jitter write_training
  loss_plateau_step total step =
      let start = plateau_start total in
      write_training step
        (jitter step 0 (if ltb step start then descent start step else literal (pos 20) 1) 2 2)
        (jitter step 1 (if leb start step then literal (pos 3) 1 else literal (pos 10) 1) 15 2)
        (jitter step 2 base_throughput 5 2)

  abbrev pub write_values : ℕ → Values F → Files → Option (List ℕ) → Turn
  write_values step values files none = (none, files)
  write_values step values files (some file) =
      diloco_turn files (write_record m file (diloco_items m (ch.clock step 1) values))

  -- `_write_diloco` of the step, with its second time stamp
  unfoldable pub write_diloco : ℕ → Values F → Files → Turn
  unfolding write_record
  write_diloco step values files = write_values step values files files.diloco
