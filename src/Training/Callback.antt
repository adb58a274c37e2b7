-- ===== src/Training/Callback.antt =====
-- training/callback.py: `SolProbeCallback`. The mapped file is part of the state; the model's
-- gradients and the optimizer's rates are truthy by what the code reads of them.
pub mod Delivered
pub mod Calls
pub mod Warnings
use solprobe.Prelude.{
  ℕ, String, ◌<>◌, Bool, true, false, Option, none, some, List, [], ◌∷◌, head?, if◌then◌else◌, ◌==◌,
  string_eq,
}
use solprobe.Prelude.Int.{ℤ, pos}
use solprobe.Prelude.Floats.{Floats}
use solprobe.Prelude.Result.{
  Result, ok, err, ◌>>=◌, or_raise, require, runtime_error, import_error, index_error,
  overflow_error,
}
use solprobe.Models.Metrics.{CustomMetric}
use solprobe.Training.Struct.{
  Machine, Item, uint8, int64, uint64, float32, write_record, write_start, fresh_file,
}

pub record Callback (F : Type 0) : Type 0 where
  pub node_id : String
  pub peak_tps : F
  pub job_id : Option String
  pub backend_url : String
  pub api_key : Option String
  pub path : String × String
  pub closed : Bool
  pub log_metric_warned : Bool
  pub file : List ℕ

-- `value or other`
abbrev pub text_or : Option String → String → String
text_or none other = other
text_or (some value) other = if value == "" then other else value

abbrev pub text_or_none : Option String → Option String → Option String
text_or_none none other = other
text_or_none (some value) other = if value == "" then other else some value

-- a text that counts as true
abbrev pub truthy : Option String → Option String
truthy none = none
truthy (some value) = if value == "" then none else some value

-- os.environ.get(name, default)
abbrev pub environ_or : (String → Option String) → String → String → String
environ_or environ name default = elim (environ name) [ none ↦ default | some value ↦ value ]

-- The request of `_send`.
pub record Request (F : Type 0) : Type 0 where
  pub url : String
  pub api_key : Option String
  pub metric : CustomMetric F

-- What a call of `log_metric` does: it warns, is silent, or starts to send.
pub data LogOutcome (F : Type 0) : Type 0 where
  warned silent : LogOutcome F
  sending : Request F → LogOutcome F

-- The file that the callback maps: its directory and its name.
unfoldable pub file_path : (String → Option String) → Option String → String → String × String
file_path environ mmap_dir node_id = (
  text_or mmap_dir (environ_or environ "SOLPROBE_MMAP_DIR" "/tmp"),
  "solprobe_training_" <> node_id <> ".bin",
)

module _ {F : Type 0} where
  unfoldable pub init :
      (String → Option String)
      → String
      → F
      → Option String
      → Option String
      → Option String
      → Option String
      → Callback F
  unfolding file_path
  init environ node_id peak_tps mmap_dir job_id backend_url api_key = record {
    node_id = node_id;
    peak_tps = peak_tps;
    job_id = job_id;
    backend_url =
        text_or backend_url (environ_or environ "SOLPROBE_BACKEND_URL" "http://localhost:8000");
    api_key = text_or_none api_key (environ "SOLPROBE_API_KEY");
    path = file_path environ mmap_dir node_id;
    closed = false;
    log_metric_warned = false;
    file = fresh_file;
  }

  unfoldable pub close : Callback F → Callback F
  close cb = if cb.closed then cb else record cb { closed = true }

  unfoldable pub on_train_end : Callback F → Result (Callback F)
  unfolding close write_start
  on_train_end cb =
      if cb.closed
      then ok (close cb)
      else write_start cb.file (0 ∷ []) >>= λ file. ok (close (record cb { file = file }))

  -- A warning is truthy once.
  abbrev pub warn : Callback F → Callback F × LogOutcome F
  warn cb =
      if cb.log_metric_warned
      then (cb, silent)
      else (record cb { log_metric_warned = true }, warned)

  -- `strip` is `rstrip("/")`.
  unfoldable pub log_metric :
      (String → String)
      → ℕ
      → Callback F
      → String
      → F
      → Option ℕ
      → Option String
      → List (String × String)
      → Option String
      → Callback F × LogOutcome F
  log_metric strip now cb name value step unit tags job_id =
      elim (truthy (text_or_none job_id cb.job_id)) [
        | none ↦ warn cb
        | some effective_job ↦ if cb.backend_url == "" then warn cb else (
          cb,
          sending (record {
            url = strip cb.backend_url <> "/api/v1/custom-metrics";
            api_key = truthy cb.api_key;
            metric = record {
              node_id = cb.node_id;
              job_id = effective_job;
              timestamp_ms = now;
              step = step;
              name = name;
              value = value;
              unit = unit;
              tags = tags;
            };
          }),
        )
      ]

module _ (fl : Floats) (m : Machine fl.F) where
  open fl use {F, lt, add, mul, div, of_int, literal}

  -- The values of a record, in the order of the format.
  abbrev pub training_items : ℕ → ℕ → ℤ → F → F → F → F → F → List (Item F)
  training_items valid_flag timestamp_ms step loss gradient_norm learning_rate throughput_tps
        mfu_pct =
      uint8 valid_flag
      ∷ int64 (pos timestamp_ms)
      ∷ uint64 step
      ∷ float32 loss
      ∷ float32 gradient_norm
      ∷ float32 learning_rate
      ∷ float32 throughput_tps
      ∷ float32 mfu_pct
      ∷ []

  unfoldable pub write : Callback F → List (Item F) → Result (Callback F)
  unfolding write_record
  write cb items = write_record m cb.file items >>= λ file. ok (record cb { file = file })

  -- The gradient norms of the parameters, `none` for a parameter without a gradient.
  unfoldable pub sum_squares : F → List (Option F) → Result F
  sum_squares total [] = ok total
  sum_squares total (none ∷ norms) = sum_squares total norms
  sum_squares total (some norm ∷ norms) =
      or_raise overflow_error (m.power norm (of_int (pos 2))) >>= λ square.
      sum_squares (add total square) norms

  unfoldable pub compute_grad_norm : List (Option F) → Result F
  unfolding sum_squares
  compute_grad_norm norms = sum_squares (literal (pos 0) 1) norms >>= λ total.
      or_raise overflow_error (m.power total (literal (pos 5) 1))

  -- max(batch_time, 1e-9)
  abbrev at_least_tiny : F → F
  at_least_tiny batch_time =
      if lt batch_time (literal (pos 1) 9) then literal (pos 1) 9 else batch_time

  unfoldable pub throughput_of : ℕ → F → F
  throughput_of tokens_in_batch batch_time =
      div (of_int (pos tokens_in_batch)) (at_least_tiny batch_time)

  unfoldable pub mfu_of : F → F → F
  mfu_of peak_tps throughput_tps =
      if lt (of_int (pos 0)) peak_tps
      then mul (div throughput_tps peak_tps) (literal (pos 1000) 1)
      else literal (pos 0) 1

  -- `torch` says whether the module can be imported, `rates` are those of the parameter groups.
  unfoldable pub on_train_batch_end :
      Bool → ℕ → Callback F → ℤ → F → List (Option F) → List F → F → ℕ → Result (Callback F)
  unfolding write compute_grad_norm throughput_of mfu_of
  on_train_batch_end torch now cb step loss norms rates batch_time tokens_in_batch =
      if cb.closed
      then err runtime_error
      else require torch import_error (
          compute_grad_norm norms >>= λ grad_norm. or_raise index_error (head? rates) >>= λ lr.
          let throughput_tps = throughput_of tokens_in_batch batch_time in
          write cb (
            training_items 1 now step loss grad_norm lr throughput_tps
              (mfu_of cb.peak_tps throughput_tps)))
