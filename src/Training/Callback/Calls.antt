-- ===== src/Training/Callback/Calls.antt =====
-- Sequences of calls of a `SolProbeCallback`, and its end.
use solprobe.Prelude.{
  ℕ, ◌≡◌, refl, ap, ◌∙◌, subst, String, Bool, true, false, Option, none, some, Option-cases, head?,
  List, [], ◌∷◌, length, drop, Bool-cases, ◌⊎◌, inl, inr, if◌then◌else◌, foldl, ◌==◌, string_eq,
}
use solprobe.Prelude.Int.{ℤ}
use solprobe.Prelude.Floats.{Floats}
use solprobe.Prelude.Result.{
  import_error, OnOk, OnOk->>=, OnOk-require, kept, kept_lem, OnOk-if, Result-cases, ok, err,
  runtime_error, index_error, or_raise,
}
use solprobe.Training.Struct.{Machine, Item, write_record, file_size, write_start}
use solprobe.Training.Struct.Fits.{write_record-length, write_start-length, write_start-flag}
use solprobe.Training.Callback.{
  Callback, LogOutcome, warned, silent, warn, close, on_train_end, log_metric, truthy, text_or_none,
  write, training_items, compute_grad_norm, throughput_of, mfu_of, on_train_batch_end,
}
use solprobe.Training.Callback.Delivered.{if-false}
use solprobe.Sidecar.{read_training, decode_training, training_record_size}
use solprobe.Sidecar.Layout.{checked-invalid}

-- The calls that a program makes of a callback.
pub data Call (F : Type 0) : Type 0 where
  batch_end : Bool → ℕ → ℤ → F → List (Option F) → List F → F → ℕ → Call F
  metric : ℕ → String → F → Option String → Call F
  train_end closing : Call F

module _ (fl : Floats) (m : Machine fl.F) (strip : String → String) where
  open fl use {F}

  pub perform : Callback F → Call F → Callback F
  unfolding on_train_batch_end log_metric on_train_end close
  perform cb (batch_end torch now step loss norms rates batch_time tokens) =
      kept cb (on_train_batch_end fl m torch now cb step loss norms rates batch_time tokens)
  perform cb (metric now name value job_id) =
      (log_metric strip now cb name value none none [] job_id).0
  perform cb train_end = kept cb (on_train_end cb)
  perform cb closing = close cb

  abbrev IsMapped : Callback F → Type 0
  IsMapped cb = length cb.file ≡ file_size

  write-IsMapped :
      (cb : Callback F) (items : List (Item F)) → IsMapped cb → OnOk IsMapped (write fl m cb items)
  unfolding write
  write-IsMapped cb items h = elim (Result-cases (write_record m cb.file items)) [
    | inl (f, e) ↦
        let size =
          subst (OnOk (λ f. length f ≡ length cb.file)) e (write_record-length m cb.file items) in
        rw e (size ∙ h)
    | inr (e, raised) ↦ rw raised tt
  ]

  on_train_batch_end-IsMapped :
      (torch : Bool) (now : ℕ) (cb : Callback F) (step : ℤ) (loss : F) (norms : List (Option F))
      (rates : List F) (batch_time : F) (tokens : ℕ)
      → IsMapped cb
      → OnOk IsMapped (on_train_batch_end fl m torch now cb step loss norms rates batch_time tokens)
  unfolding on_train_batch_end
  on_train_batch_end-IsMapped torch now cb step loss norms rates batch_time tokens h =
      OnOk-if IsMapped cb.closed _ _ tt (
        OnOk-require IsMapped torch import_error _ (
          OnOk->>= IsMapped (compute_grad_norm fl m norms) _ (λ g.
            OnOk->>= IsMapped (or_raise index_error (head? rates)) _ (λ lr.
              write-IsMapped cb
                (training_items fl m 1 now step loss g lr (throughput_of fl m tokens batch_time)
                  (mfu_of fl m cb.peak_tps (throughput_of fl m tokens batch_time)))
                h))))

  close-file : (cb : Callback F) → (close cb).file ≡ cb.file
  unfolding close
  close-file cb = either_file cb.closed
    where
      either_file : (c : Bool) → (if c then cb else record cb { closed = true }).file ≡ cb.file
      either_file true = refl
      either_file false = refl

  on_train_end-IsMapped : (cb : Callback F) → IsMapped cb → OnOk IsMapped (on_train_end cb)
  unfolding on_train_end
  on_train_end-IsMapped cb h =
      OnOk-if IsMapped cb.closed _ _ (ap length (close-file cb) ∙ h)
        (elim (Result-cases (write_start cb.file (0 ∷ []))) [
          | inl (f, e) ↦
              let size =
                subst (OnOk (λ f. length f ≡ length cb.file)) e
                  (write_start-length cb.file (0 ∷ [])) in
              rw e (ap length (close-file (record cb { file = f })) ∙ size ∙ h)
          | inr (e, raised) ↦ rw raised tt
        ])

  either_file :
      (cb cb' : Callback F) (x y : LogOutcome F) (c : Bool)
      → cb'.file ≡ cb.file
      → (if◌then◌else◌ {A = Callback F × LogOutcome F} c (cb, x) (cb', y)).0.file ≡ cb.file
  either_file cb cb' x y true h = refl
  either_file cb cb' x y false h = h

  warn-file : (cb : Callback F) → (warn cb).0.file ≡ cb.file
  warn-file cb =
      either_file cb (record cb { log_metric_warned = true }) silent warned cb.log_metric_warned
        refl

  log_metric-file :
      (now : ℕ) (cb : Callback F) (name : String) (value : F) (job_id : Option String)
      → (log_metric strip now cb name value none none [] job_id).0.file ≡ cb.file
  unfolding log_metric
  log_metric-file now cb name value job_id =
      elim (Option-cases (truthy (text_or_none job_id cb.job_id))) [
        | inl e ↦ rw (e, log_metric) (warn-file cb)
        | inr (job, e) ↦ elim (Bool-cases (cb.backend_url == "")) [
          | inl t ↦ rw (e, log_metric, t) (warn-file cb)
          | inr f ↦ rw (e, log_metric, f) refl
        ]
      ]

  perform-IsMapped : (cb : Callback F) (c : Call F) → IsMapped cb → IsMapped (perform cb c)
  unfolding perform
  perform-IsMapped cb (batch_end torch now step loss norms rates batch_time tokens) h =
      kept_lem IsMapped cb _ h
        (on_train_batch_end-IsMapped torch now cb step loss norms rates batch_time tokens h)
  perform-IsMapped cb (metric now name value job_id) h =
      ap length (log_metric-file now cb name value job_id) ∙ h
  perform-IsMapped cb train_end h = kept_lem IsMapped cb _ h (on_train_end-IsMapped cb h)
  perform-IsMapped cb closing h = ap length (close-file cb) ∙ h

  pub performed-IsMapped :
      (cb : Callback F) (calls : List (Call F)) → IsMapped cb → IsMapped (foldl perform cb calls)
  performed-IsMapped cb [] h = h
  performed-IsMapped cb (c ∷ calls) h =
      performed-IsMapped (perform cb c) calls (perform-IsMapped cb c h)

  -- The end of a training run: the callback is closed, the sidecar reads nothing, and a further
  -- batch is refused.
  abbrev pub Ended : Callback F → Type 0
  Ended cb =
      (cb' : Callback F) × (on_train_end cb ≡ ok cb')
      × ((read_at : ℕ) → read_training m read_at cb.node_id (some cb'.file) ≡ none)
      × ((torch : Bool) (now : ℕ) (step : ℤ) (loss : F) (norms : List (Option F)) (rates : List F)
            (batch_time : F) (tokens : ℕ)
          → on_train_batch_end fl m torch now cb' step loss norms rates batch_time tokens
            ≡ err runtime_error)

  end-Ended : (cb : Callback F) → IsMapped cb → cb.closed ≡ false → Ended cb
  unfolding on_train_end close read_training on_train_batch_end
  end-Ended cb h is_open =
      let file = 0 ∷ drop 1 cb.file in
      let cb' = record cb { closed = true; file = file } in
      let written = write_start-flag cb.file h in
      let shut : close (record cb { file = file }) ≡ cb' = if-false cb.closed _ _ is_open in
      let done : on_train_end cb ≡ ok cb' =
        if-false cb.closed _ _ is_open ∙ rw written (ap ok shut) in
      (
        cb',
        done,
        λ read_at.
            checked-invalid training_record_size read_at (decode_training m cb.node_id)
              (drop 1 cb.file),
        λ torch now step loss norms rates batch_time tokens. refl,
      )

  -- After any calls, a callback that was not closed before is ended properly.
  pub performed-Ended :
      (cb : Callback F) (calls : List (Call F))
      → IsMapped cb
      → ((foldl perform cb calls).closed ≡ true) ⊎ Ended (foldl perform cb calls)
  performed-Ended cb calls h = elim (Bool-cases (foldl perform cb calls).closed) [
    | inl shut ↦ inl shut
    | inr is_open ↦ inr (end-Ended (foldl perform cb calls) (performed-IsMapped cb calls h) is_open)
  ]
