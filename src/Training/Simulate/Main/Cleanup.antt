-- ===== src/Training/Simulate/Main/Cleanup.antt =====
-- The files while the simulator runs and after its end.
use mathlib.Core.Option
use solprobe.Prelude.{
  ℕ, zero, suc, ◌+◌, ◌≡◌, refl, ap, ◌∙◌, sym, subst, String, Bool, true, false, Option, none, some,
  List, ◌∷◌, length, drop, if◌then◌else◌, ltb, nat_eq,
}
use solprobe.Prelude.Int.{ℤ}
use solprobe.Prelude.Floats.{Floats}
use solprobe.Prelude.Result.{Result, ok, err, OnOk, kept}
use solprobe.Training.Struct.{Machine, file_size, write_record, fresh_file}
use solprobe.Training.Struct.Fits.{write_record-length, write_start-flag}
use solprobe.Training.Diloco.{Values, diloco_items}
use solprobe.Training.Simulate.{
  Files, Turn, Chance, total_steps, and_then, play, train_turn, diloco_turn, step_items, spike_turn,
  spike_power, write_training, write_diloco, write_values,
}
use solprobe.Training.Simulate.Drift.{values_at}
use solprobe.Training.Simulate.Main.{
  Scenario, normal, gradient_explosion, loss_plateau, diloco_drift, steps_played, scenario_step,
  scenario, has_file, invalidate, invalidate_files, simulate,
}
use solprobe.Sidecar.{
  read_training, read_diloco, decode_training, decode_diloco, training_record_size,
  diloco_record_size,
}
use solprobe.Sidecar.Layout.{checked-invalid}

-- Both files are there and have their size.
abbrev AreMapped : Files → Type 0
AreMapped files =
    (length files.train ≡ file_size)
    × (file : List ℕ) × (files.diloco ≡ some file)
    × (length file ≡ file_size)

-- A step keeps the files, whether it raises or not.
abbrev Keeps : (Files → Turn) → Type 0
Keeps turn = (files : Files) → AreMapped files → AreMapped (turn files).1

train_turn-AreMapped :
    (files : Files) (r : Result (List ℕ))
    → AreMapped files
    → OnOk (λ f. length f ≡ length files.train) r
    → AreMapped (train_turn files r).1
train_turn-AreMapped files (ok f) (size, file, e, s) h = (h ∙ size, file, e, s)
train_turn-AreMapped files (err e) mapped h = mapped

diloco_turn-AreMapped :
    (files : Files) (r : Result (List ℕ))
    → AreMapped files
    → OnOk (λ f. length f ≡ file_size) r
    → AreMapped (diloco_turn files r).1
diloco_turn-AreMapped files (ok f) (size, file, e, s) h = (size, f, refl, h)
diloco_turn-AreMapped files (err e) mapped h = mapped

and_then-AreMapped :
    (t : Turn) (next : Files → Turn) → AreMapped t.1 → Keeps next → AreMapped (and_then t next).1
and_then-AreMapped (none, files) next h keeps = keeps files h
and_then-AreMapped (some e, files) next h keeps = h

play-AreMapped :
    (body : ℕ → Files → Turn) (n step : ℕ) → ((k : ℕ) → Keeps (body k)) → Keeps (play body n step)
unfolding play
play-AreMapped body zero step keeps files h = h
play-AreMapped body (suc n) step keeps files h =
    and_then-AreMapped (body step files) (play body n (step + 1)) (keeps step files h)
      (play-AreMapped body n (step + 1) keeps)

if-AreMapped :
    (b : Bool) (x y : Turn) → AreMapped x.1 → AreMapped y.1 → AreMapped (if b then x else y).1
if-AreMapped true x y hx hy = hx
if-AreMapped false x y hx hy = hy

invalidate-flag : (file : List ℕ) → length file ≡ file_size → invalidate file ≡ 0 ∷ drop 1 file
unfolding invalidate
invalidate-flag file h = ap (kept file) (write_start-flag file h)

module _ (fl : Floats) (m : Machine fl.F) (ch : Chance fl.F) where
  open fl use {F}

  write_training-Keeps :
      (step : ℕ) (loss g tps : F) → Keeps (write_training fl m ch step loss g tps)
  unfolding write_training
  write_training-Keeps step loss g tps files h =
      train_turn-AreMapped files _ h
        (write_record-length m files.train (step_items fl m ch step loss g tps))

  write_diloco-Keeps : (step : ℕ) (v : Values F) → Keeps (write_diloco fl m ch step v)
  unfolding write_diloco
  write_diloco-Keeps step v files (size, file, e, s) =
      let written = write_record-length m file (diloco_items m (ch.clock step 1) v) in
      let sized =
        subst
          (λ n. OnOk (λ f. length f ≡ n) (write_record m file (diloco_items m (ch.clock step 1) v)))
          s written in
      subst (λ o. AreMapped (write_values fl m ch step v files o).1) (sym e)
        (diloco_turn-AreMapped files _ (size, file, e, s) sized)

  spike_turn-Keeps : (total step : ℕ) (o : Option F) → Keeps (spike_turn fl m ch total step o)
  spike_turn-Keeps total step none files h = h
  spike_turn-Keeps total step (some power) files h = write_training-Keeps step _ _ _ files h

  scenario_step-Keeps : (s : Scenario) (total k : ℕ) → Keeps (scenario_step fl m ch s total k)
  unfolding scenario_step
  scenario_step-Keeps normal total k files h = write_training-Keeps k _ _ _ files h
  scenario_step-Keeps gradient_explosion total k files h =
      if-AreMapped (ltb k 200) _ _ (write_training-Keeps k _ _ _ files h)
        (spike_turn-Keeps total k (spike_power fl m ch k) files h)
  scenario_step-Keeps loss_plateau total k files h = write_training-Keeps k _ _ _ files h
  scenario_step-Keeps diloco_drift total k files h =
      and_then-AreMapped (write_training fl m ch k _ _ _ files) _
        (write_training-Keeps k _ _ _ files h) (write_diloco-Keeps k (values_at fl m ch total k))

  -- the steps of a scenario
  abbrev played : Scenario → ℤ → Option ℕ → Files → Turn
  played s duration interrupt =
      play (scenario_step fl m ch s (total_steps duration)) (steps_played duration interrupt) 0

  played-Keeps :
      (s : Scenario) (duration : ℤ) (interrupt : Option ℕ) → Keeps (played s duration interrupt)
  played-Keeps s duration interrupt =
      play-AreMapped (scenario_step fl m ch s (total_steps duration))
        (steps_played duration interrupt) 0 (scenario_step-Keeps s (total_steps duration))

  scenario-Keeps :
      (s : Scenario) (duration : ℤ) (interrupt : Option ℕ)
      → Keeps (scenario fl m ch s duration interrupt)
  unfolding scenario
  scenario-Keeps normal duration interrupt files h = played-Keeps normal duration interrupt files h
  scenario-Keeps gradient_explosion duration interrupt files h =
      played-Keeps gradient_explosion duration interrupt files h
  scenario-Keeps loss_plateau duration interrupt files h =
      played-Keeps loss_plateau duration interrupt files h
  scenario-Keeps diloco_drift duration interrupt files h =
      if-AreMapped (has_file files.diloco) (played diloco_drift duration interrupt files)
        (none, files) (played-Keeps diloco_drift duration interrupt files h) h

  -- The files after a run.
  abbrev pub Unread : Files → Type 0
  Unread files =
      (node_id : String) (read_at : ℕ)
      → (read_training m read_at node_id (some files.train) ≡ none)
        × (read_diloco m read_at node_id files.diloco ≡ none)

  invalidate-Unread : (files : Files) → AreMapped files → Unread (invalidate_files files)
  unfolding invalidate read_training read_diloco
  invalidate-Unread files (size, file, e, s) node_id read_at = (
    ap (λ f. read_training m read_at node_id (some f)) (invalidate-flag files.train size)
        ∙ checked-invalid training_record_size read_at (decode_training m node_id)
            (drop 1 files.train),
    ap (λ o. read_diloco m read_at node_id (Option.map invalidate o)) e
        ∙ ap (λ f. read_diloco m read_at node_id (some f)) (invalidate-flag file s)
        ∙ checked-invalid diloco_record_size read_at (decode_diloco m node_id) (drop 1 file),
  )

  -- However a run of the simulator ends, by itself, by an exception or by the user, the sidecar reads
  -- neither file any more.
  pub simulate-Unread :
      (s : Scenario) (duration : ℤ) (interrupt : Option ℕ)
      → Unread (simulate fl m ch s duration interrupt).1
  unfolding simulate
  simulate-Unread s duration interrupt =
      invalidate-Unread _ (scenario-Keeps s duration interrupt _ (refl, fresh_file, refl, refl))
