-- ===== src/Training/Diloco.antt =====
-- training/diloco_callback.py: `SolProbeDiLoCoCallback`. Its record of the latest values is part of
-- the state, and so is the mapped file.
pub mod Latest
use solprobe.Prelude.{
  ℕ, String, ◌<>◌, Bool, true, false, Option, List, [], ◌∷◌, if◌then◌else◌, drop,
}
use solprobe.Prelude.Int.{ℤ, pos}
use solprobe.Prelude.Floats.{Floats}
use solprobe.Prelude.Result.{Result, ok, err, ◌>>=◌, kept, runtime_error}
use solprobe.Training.Struct.{
  Machine, Item, uint8, int64, uint64, float32, write_record, write_start, fresh_file,
}
use solprobe.Training.Callback.{text_or, environ_or}

-- The values that a record holds.
pub record Values (F : Type 0) : Type 0 where
  pub inner_step : ℤ
  pub outer_step : ℤ
  pub inner_loss : F
  pub outer_loss : F
  pub pseudo_grad_norm : F
  pub sync_duration_ms : F
  pub worker_speed_ratio : F
  pub is_straggler : Bool

pub record DilocoCallback (F : Type 0) : Type 0 where
  pub node_id : String
  pub path : String × String
  pub closed : Bool
  pub values : Values F
  pub file : List ℕ

module _ (fl : Floats) where
  open fl use {F, literal}

  abbrev pub first_values : Values F
  first_values = record {
    inner_step = pos 0;
    outer_step = pos 0;
    inner_loss = literal (pos 0) 1;
    outer_loss = literal (pos 0) 1;
    pseudo_grad_norm = literal (pos 0) 1;
    sync_duration_ms = literal (pos 0) 1;
    worker_speed_ratio = literal (pos 10) 1;
    is_straggler = false;
  }

  unfoldable pub init_diloco : (String → Option String) → String → Option String → DilocoCallback F
  init_diloco environ node_id mmap_dir = record {
    node_id = node_id;
    path = (
      text_or mmap_dir (environ_or environ "SOLPROBE_MMAP_DIR" "/tmp"),
      "solprobe_diloco_" <> node_id <> ".bin",
    );
    closed = false;
    values = first_values;
    file = fresh_file;
  }

-- whether a call went through, and the state after it
abbrev pub outcome : {S : Type 0} → S → Result S → Bool × S
outcome s (ok s') = (true, s')
outcome s (err e) = (false, s)

abbrev pub flag_of : Bool → ℕ
flag_of b = if b then 1 else 0

module _ {F : Type 0} (m : Machine F) where
  abbrev pub diloco_items : ℕ → Values F → List (Item F)
  diloco_items now v =
      uint8 1
      ∷ int64 (pos now)
      ∷ uint64 v.inner_step
      ∷ uint64 v.outer_step
      ∷ float32 v.inner_loss
      ∷ float32 v.outer_loss
      ∷ float32 v.pseudo_grad_norm
      ∷ float32 v.sync_duration_ms
      ∷ float32 v.worker_speed_ratio
      ∷ uint8 (flag_of v.is_straggler)
      ∷ []

  -- `_flush`: the file after the values were packed into it
  unfoldable pub flush : ℕ → DilocoCallback F → Result (DilocoCallback F)
  unfolding write_record
  flush now cb =
      write_record m cb.file (diloco_items now cb.values) >>= λ file. ok (record cb { file = file })

  -- A call notes its values before it writes them: whether `_flush` went through, and the callback
  -- after it.
  abbrev pub noted : ℕ → DilocoCallback F → Bool × DilocoCallback F
  noted now cb = outcome cb (flush now cb)

  -- Whether the call went through, and the callback after it.
  unfoldable pub on_inner_step : ℕ → DilocoCallback F → ℤ → ℤ → F → Bool × DilocoCallback F
  unfolding flush
  on_inner_step now cb inner_step outer_step inner_loss =
      if cb.closed
      then (false, cb)
      else noted now (record cb {
        values = record cb.values {
          inner_step = inner_step;
          outer_step = outer_step;
          inner_loss = inner_loss;
        };
      })

  unfoldable pub on_outer_step :
      ℕ → DilocoCallback F → ℤ → F → F → F → F → Bool → Bool × DilocoCallback F
  unfolding flush
  on_outer_step now cb outer_step outer_loss pseudo_grad_norm sync_duration_ms worker_speed_ratio
        is_straggler =
      if cb.closed
      then (false, cb)
      else noted now (record cb {
        values = record cb.values {
          outer_step = outer_step;
          outer_loss = outer_loss;
          pseudo_grad_norm = pseudo_grad_norm;
          sync_duration_ms = sync_duration_ms;
          worker_speed_ratio = worker_speed_ratio;
          is_straggler = is_straggler;
        };
      })

-- A failure to mark the file as invalid is passed over.
unfoldable pub close_diloco : {F : Type 0} → DilocoCallback F → DilocoCallback F
unfolding write_start
close_diloco cb =
    if cb.closed
    then cb
    else record cb { closed = true; file = kept cb.file (write_start cb.file (0 ∷ [])) }
