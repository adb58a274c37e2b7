-- ===== src/Sidecar.antt =====
-- sidecar/src/collectors/training.rs and diloco.rs: what the sidecar reads of the files that the
-- callbacks of a training job write.
pub mod Layout
use solprobe.Prelude.{
  ℕ, zero, suc, ◌+◌, ◌-◌, ◌*◌, String, Bool, true, false, not, Option, none, some, List, [], ◌∷◌,
  length, take, drop, head?, ltb, ◌==◌, nat_eq, if◌then◌else◌, ◌>>=◌,
}
use solprobe.Prelude.Int.{ℤ, pos, negsuc, pos_part, neg_part}
use solprobe.Training.Struct.{Machine, two_63, two_64}

abbrev pub training_record_size : ℕ
training_record_size = 37

abbrev pub diloco_record_size : ℕ
diloco_record_size = 46

-- The message TrainingMetrics.
pub record TrainingRecord (F : Type 0) : Type 0 where
  pub node_id : String
  pub job_id : String
  pub timestamp_ms : ℤ
  pub step : ℕ
  pub loss : F
  pub gradient_norm : F
  pub learning_rate : F
  pub throughput_tps : F
  pub mfu_pct : F

-- The message DiLoCoMetrics.
pub record DilocoRecord (F : Type 0) : Type 0 where
  pub node_id : String
  pub job_id : String
  pub timestamp_ms : ℤ
  pub inner_step : ℕ
  pub outer_step : ℕ
  pub inner_loss : F
  pub outer_loss : F
  pub pseudo_grad_norm : F
  pub sync_duration_ms : F
  pub worker_speed_ratio : F
  pub is_straggler : Bool

-- u64::from_le_bytes
abbrev pub from_le : List ℕ → ℕ
from_le [] = 0
from_le (b ∷ bs) = b + 256 * from_le bs

-- i64::from_le_bytes, of the bits
abbrev pub signed64 : ℕ → ℤ
signed64 w = if ltb w two_63 then pos w else negsuc (two_64 - w - 1)

-- buf[i..i + n]
abbrev pub slice : ℕ → ℕ → List ℕ → List ℕ
slice i n buf = take n (drop i buf)

abbrev pub u64_at : ℕ → List ℕ → ℕ
u64_at i buf = from_le (slice i 8 buf)

abbrev pub i64_at : ℕ → List ℕ → ℤ
i64_at i buf = signed64 (u64_at i buf)

-- now_ms - timestamp_ms > 5000, without the overflow of times in the far past
unfoldable pub is_stale : ℕ → ℤ → Bool
is_stale now timestamp_ms = ltb (5000 + pos_part timestamp_ms) (now + neg_part timestamp_ms)

module _ {F : Type 0} (m : Machine F) where
  abbrev f32_of : List ℕ → Option F
  f32_of (a ∷ b ∷ c ∷ d ∷ []) = some (m.unpack_f32 a b c d)
  f32_of _ = none

  abbrev pub f32_at : ℕ → List ℕ → Option F
  f32_at i buf = f32_of (slice i 4 buf)

  -- The fields, once the length, the flag and the age were tested.
  unfoldable pub decode_training : String → List ℕ → Option (TrainingRecord F)
  decode_training node_id buf = do
    loss ← f32_at 17 buf
    gradient_norm ← f32_at 21 buf
    learning_rate ← f32_at 25 buf
    throughput_tps ← f32_at 29 buf
    mfu_pct ← f32_at 33 buf
    some (record {
      node_id = node_id;
      job_id = "";
      timestamp_ms = i64_at 1 buf;
      step = u64_at 9 buf;
      loss = loss;
      gradient_norm = gradient_norm;
      learning_rate = learning_rate;
      throughput_tps = throughput_tps;
      mfu_pct = mfu_pct;
    })

  unfoldable pub decode_diloco : String → List ℕ → Option (DilocoRecord F)
  decode_diloco node_id buf = do
    inner_loss ← f32_at 25 buf
    outer_loss ← f32_at 29 buf
    pseudo_grad_norm ← f32_at 33 buf
    sync_duration_ms ← f32_at 37 buf
    worker_speed_ratio ← f32_at 41 buf
    straggler ← head? (drop 45 buf)
    some (record {
      node_id = node_id;
      job_id = "";
      timestamp_ms = i64_at 1 buf;
      inner_step = u64_at 9 buf;
      outer_step = u64_at 17 buf;
      inner_loss = inner_loss;
      outer_loss = outer_loss;
      pseudo_grad_norm = pseudo_grad_norm;
      sync_duration_ms = sync_duration_ms;
      worker_speed_ratio = worker_speed_ratio;
      is_straggler = not (straggler == 0);
    })

abbrev pub unless : {R : Type 0} → Bool → Option R → Option R
unless true r = none
unless false r = r

-- The tests that both readers make, in their order: long enough, marked as valid, and not stale.
unfoldable pub checked : {R : Type 0} → ℕ → ℕ → (List ℕ → Option R) → List ℕ → Option R
unfolding is_stale
checked size now fields buf =
    unless (ltb (length buf) size)
      do flag ← head? buf; unless (flag == 0) (unless (is_stale now (i64_at 1 buf)) (fields buf))

-- `TrainingMetricsReader.read`, at a time; `none` is a file that cannot be opened.
unfoldable pub read_training :
    {F : Type 0} → Machine F → ℕ → String → Option (List ℕ) → Option (TrainingRecord F)
unfolding checked decode_training
read_training m now node_id none = none
read_training m now node_id (some file) =
    checked training_record_size now (decode_training m node_id) file

-- `DiLoCoMetricsReader.read`
unfoldable pub read_diloco :
    {F : Type 0} → Machine F → ℕ → String → Option (List ℕ) → Option (DilocoRecord F)
unfolding checked decode_diloco
read_diloco m now node_id none = none
read_diloco m now node_id (some file) =
    checked diloco_record_size now (decode_diloco m node_id) file
