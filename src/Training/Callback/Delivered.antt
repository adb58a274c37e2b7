-- ===== src/Training/Callback/Delivered.antt =====
-- What the sidecar reads of the records of `SolProbeCallback`.
use solprobe.Prelude.{
  ℕ, ◌+◌, ◌≤◌, ◌<◌, ◌≡◌, refl, ◌∙◌, sym, subst, if◌then◌else◌, arith, String, Bool, true, false,
  ◌&&◌, Option, some, List, ◌∷◌, length, ltb, ltb→lt, ◌⊎◌, inl, inr,
}
use solprobe.Prelude.Int.{ℤ, pos, negsuc}
use solprobe.Prelude.Floats.{Floats}
use solprobe.Prelude.Result.{Result, Error, ok, err, runtime_error}
use solprobe.Training.Struct.{Machine, le_bytes, two_63, two_64, file_size}
use solprobe.Training.Struct.Fits.{fits_all, stored, record_bytes, write_record-Packs}
use solprobe.Training.Callback.{
  Callback, training_items, write, compute_grad_norm, throughput_of, mfu_of, on_train_batch_end,
}
use solprobe.Sidecar.{TrainingRecord, from_le, is_stale, read_training}
use solprobe.Sidecar.Layout.{from_le-le_bytes}

pub and_true : {a b : Bool} → (a && b) ≡ true → (a ≡ true) × (b ≡ true)
and_true {a} h = ground arith

pub if-false : {A : Type 0} (c : Bool) (x y : A) → c ≡ false → (if c then x else y) ≡ y
if-false c x y h = rw h refl

module _ (fl : Floats) (m : Machine fl.F) where
  open fl use {F}

  -- What the sidecar hands on of a training step.
  abbrev pub reported : String → ℕ → ℕ → F → F → F → F → F → TrainingRecord F
  reported node_id now s loss gradient_norm learning_rate throughput_tps mfu_pct = record {
    node_id = node_id;
    job_id = "";
    timestamp_ms = pos now;
    step = s;
    loss = stored m loss;
    gradient_norm = stored m gradient_norm;
    learning_rate = stored m learning_rate;
    throughput_tps = stored m throughput_tps;
    mfu_pct = stored m mfu_pct;
  }

  pub read-record :
      (node_id : String) (read_at now s : ℕ) (loss g lr tps mfu : F)
      → read_at ≤ now + 5000
      → ltb now two_63 ≡ true
      → s < two_64
      → read_training m read_at node_id
          (some (record_bytes m (training_items fl m 1 now (pos s) loss g lr tps mfu)))
        ≡ some (reported node_id now s loss g lr tps mfu)
  unfolding read_training
  read-record node_id read_at now s loss g lr tps mfu age small_now small_step =
      let time : from_le (le_bytes 8 now) ≡ now =
        from_le-le_bytes 8 now (omega (arith, ltb→lt now two_63 small_now)) in
      let step : from_le (le_bytes 8 s) ≡ s = from_le-le_bytes 8 s small_step in
      let fresh : is_stale read_at (pos now) ≡ false = ground arith in
      rw (time, step, small_now, fresh) refl

  -- Once a record was written: a value did not fit, or the sidecar reads the record.
  abbrev pub Written : Callback F → ℕ → ℕ → ℤ → F → F → F → F → F → Result (Callback F) → Type 0
  Written cb read_at now step loss g lr tps mfu r =
      ((fits_all m (training_items fl m 1 now step loss g lr tps mfu) ≡ false)
        × (e : Error) × (r ≡ err e))
      ⊎ ((cb' : Callback F) × (r ≡ ok cb')
          × (s : ℕ) × (step ≡ pos s)
          × (read_training m read_at cb.node_id (some cb'.file)
              ≡ some (reported cb.node_id now s loss g lr tps mfu)))

  write-Written :
      (cb : Callback F) (read_at now : ℕ) (step : ℤ) (loss g lr tps mfu : F)
      → length cb.file ≡ file_size
      → read_at ≤ now + 5000
      → Written cb read_at now step loss g lr tps mfu
          (write fl m cb (training_items fl m 1 now step loss g lr tps mfu))
  unfolding write
  write-Written cb read_at now (negsuc s) loss g lr tps mfu full age =
      elim (write_record-Packs m cb.file (training_items fl m 1 now (negsuc s) loss g lr tps mfu)
        full) [
          | inl (no_fit, e, raised) ↦ inl (no_fit, e, rw raised refl)
          | inr (fit, written) ↦ absurd (ground arith)
        ]
  write-Written cb read_at now (pos s) loss g lr tps mfu full age =
      elim (write_record-Packs m cb.file (training_items fl m 1 now (pos s) loss g lr tps mfu)
        full) [
          | inl (no_fit, e, raised) ↦ inl (no_fit, e, rw raised refl)
          | inr (fit, written) ↦
              let small_now = (and_true fit).0 in
              let small_step = ltb→lt s two_64 (and_true (and_true fit).1).0 in
              inr (
                record cb {
                  file = record_bytes m (training_items fl m 1 now (pos s) loss g lr tps mfu);
                },
                rw written refl,
                s,
                refl,
                read-record cb.node_id read_at now s loss g lr tps mfu age small_now small_step,
              )
        ]

  -- A training step is reported to an open callback whose file is mapped, with a gradient norm and a
  -- learning rate: if a value is not in the range of its format, an exception is raised. Else the
  -- sidecar, which reads at most five seconds later, gets the step with its time stamp and number
  -- and each number rounded to four bytes.
  pub on_train_batch_end-read :
      (cb : Callback F) (read_at now : ℕ) (step : ℤ) (loss : F) (norms : List (Option F)) (g lr : F)
      (rates : List F) (batch_time : F) (tokens_in_batch : ℕ)
      → cb.closed ≡ false
      → length cb.file ≡ file_size
      → read_at ≤ now + 5000
      → compute_grad_norm fl m norms ≡ ok g
      → Written cb read_at now step loss g lr
          (throughput_of fl m tokens_in_batch batch_time)
          (mfu_of fl m cb.peak_tps (throughput_of fl m tokens_in_batch batch_time))
          (on_train_batch_end fl m true now cb step loss norms
            (lr ∷ rates)
            batch_time
            tokens_in_batch)
  unfolding on_train_batch_end
  on_train_batch_end-read cb read_at now step loss norms g lr rates batch_time tokens_in_batch
        is_open full age norm =
      let opened = if-false cb.closed (err runtime_error) (_) is_open in
      subst
        (Written cb read_at now step loss g lr (throughput_of fl m tokens_in_batch batch_time)
          (mfu_of fl m cb.peak_tps (throughput_of fl m tokens_in_batch batch_time)))
        (sym (opened ∙ (rw norm refl))) (write-Written cb read_at now step loss g lr _ _ full age)
