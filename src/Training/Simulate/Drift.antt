-- ===== src/Training/Simulate/Drift.antt =====
-- `scenario_diloco_drift` of training/simulate.py.
use solprobe.Prelude.{ℕ, ◌-◌, ◌/◌, ◌%◌, false, if◌then◌else◌, ◌==◌, nat_eq, leb}
use solprobe.Prelude.Int.{pos, negsuc}
use solprobe.Prelude.Floats.{Floats}
use solprobe.Training.Struct.{Machine}
use solprobe.Training.Diloco.{Values}
use solprobe.Training.Simulate.{
  Files, Turn, and_then, Chance, jitter, max_of, progress_of, decay, base_throughput,
  write_training, write_diloco,
}

abbrev pub inner_steps_per_outer : ℕ
inner_steps_per_outer = 10

module _ (fl : Floats) (m : Machine fl.F) (ch : Chance fl.F) where
  open fl use {F, lt, add, sub, mul, of_int, literal}

  -- 4.0 * math.exp(-3.0 * overall_progress) + 0.3, jittered
  unfoldable pub inner_loss_of : ℕ → ℕ → F
  unfolding jitter progress_of
  inner_loss_of total step =
      jitter fl m ch step 0 (decay fl m ch (negsuc 29) (pos 3) (progress_of fl m ch total step)) 3 2

  -- Between two synchronisations.
  unfoldable pub inner_values : ℕ → ℕ → Values F
  unfolding inner_loss_of
  inner_values total step = record {
    inner_step = pos (step % inner_steps_per_outer);
    outer_step = pos (step / inner_steps_per_outer);
    inner_loss = inner_loss_of total step;
    outer_loss = literal (pos 0) 1;
    pseudo_grad_norm = literal (pos 0) 1;
    sync_duration_ms = literal (pos 0) 1;
    worker_speed_ratio = literal (pos 10) 1;
    is_straggler = false;
  }

  -- At a synchronisation, up to the fifth outer step.
  unfoldable pub tracking_values : ℕ → ℕ → Values F
  unfolding inner_loss_of jitter
  tracking_values total step = record {
    inner_step = pos (step % inner_steps_per_outer);
    outer_step = pos (step / inner_steps_per_outer);
    inner_loss = inner_loss_of total step;
    outer_loss = mul (inner_loss_of total step) (literal (pos 11) 1);
    pseudo_grad_norm = jitter fl m ch step 3 (literal (pos 5) 1) 1 1;
    sync_duration_ms = jitter fl m ch step 4 (literal (pos 3000) 1) 1 1;
    worker_speed_ratio = jitter fl m ch step 5 (literal (pos 10) 1) 5 2;
    is_straggler = false;
  }

  -- (outer_step - 5) * factor
  abbrev since_fifth : ℕ → F → F
  since_fifth outer_step factor = mul (of_int (pos (outer_step - 5))) factor

  abbrev speed_ratio_of : ℕ → ℕ → F
  speed_ratio_of step outer_step = max_of fl m ch (literal (pos 5) 1) (
      jitter fl m ch step 5 (sub (literal (pos 10) 1) (since_fifth outer_step (literal (pos 5) 2)))
        5 2)

  -- After that, the outer loss drifts away.
  unfoldable pub drifting_values : ℕ → ℕ → Values F
  unfolding inner_loss_of jitter
  drifting_values total step =
      let outer = step / inner_steps_per_outer in
      let drift_factor = since_fifth outer (literal (pos 4) 1) in
      let ratio = speed_ratio_of step outer in
      record {
        inner_step = pos (step % inner_steps_per_outer);
        outer_step = pos outer;
        inner_loss = inner_loss_of total step;
        outer_loss = add (inner_loss_of total step) drift_factor;
        pseudo_grad_norm =
            jitter fl m ch step 3 (add (literal (pos 5) 1) (mul drift_factor (literal (pos 5) 1))) 1
              1;
        sync_duration_ms =
            jitter fl m ch step 4
              (add (literal (pos 3000) 1) (since_fifth outer (literal (pos 500) 1))) 1 1;
        worker_speed_ratio = ratio;
        is_straggler = lt ratio (literal (pos 75) 2);
      }

  unfoldable pub values_at : ℕ → ℕ → Values F
  unfolding inner_values tracking_values drifting_values
  values_at total step =
      if step % inner_steps_per_outer == inner_steps_per_outer - 1
      then (if leb (step / inner_steps_per_outer) 5
          then tracking_values total step
          else drifting_values total step)
      else inner_values total step

  -- A step of `scenario_diloco_drift`: the training file first, then that of DiLoCo.
  unfoldable pub diloco_drift_step : ℕ → ℕ → Files → Turn
  unfolding values_at jitter write_training write_diloco
  diloco_drift_step total step files =
      and_then
        (write_training fl m ch step (inner_loss_of total step)
          (jitter fl m ch step 1 (literal (pos 10) 1) 15 2)
          (jitter fl m ch step 2 (base_throughput fl m ch) 5 2) files)
        (write_diloco fl m ch step (values_at total step))
