-- ===== src/Tests/TrainingRuns.antt =====
-- The callbacks, the simulator and the client for notebooks on concrete inputs.
use solprobe.Prelude.{
  ℕ, ◌+◌, ◌*◌, ◌/◌, ◌%◌, ◌≡◌, refl, arith, String, true, Option, none, some, List, [], ◌∷◌, foldl,
  ltb, if◌then◌else◌, ◌⊎◌,
}
use solprobe.Prelude.Int.{pos, negsuc}
use solprobe.Prelude.Result.{Error, ok}
use solprobe.Stores.Metrics.{get_node_status}
use solprobe.Stores.World.{World}
use solprobe.Models.Metrics.{NodeStatus}
use solprobe.Routes.{replied, single}
use solprobe.Routes.Nodes.{post_metrics_batches}
use solprobe.Training.Struct.{Machine}
use solprobe.Training.Callback.{
  Callback, init, compute_grad_norm, throughput_of, mfu_of, on_train_batch_end,
}
use solprobe.Training.Callback.Delivered.{Written, on_train_batch_end-read}
use solprobe.Training.Callback.Calls.{Call, batch_end, metric, perform, Ended, performed-Ended}
use solprobe.Training.Diloco.{DilocoCallback, init_diloco}
use solprobe.Training.Diloco.Latest.{Step, inner, outer, latest, Shown, call, after, call-latest}
use solprobe.Training.Simulate.{Turn, Chance, total_steps, spike_power}
use solprobe.Training.Simulate.Main.{diloco_drift, gradient_explosion, simulate}
use solprobe.Training.Simulate.Main.Cleanup.{simulate-Unread}
use solprobe.Training.Simulate.Main.Explosion.{simulate-overflow}
use solprobe.Sidecar.{read_training, read_diloco}
use solprobe.Training.Colab.{
  Client, GpuReadings, Given, gpu_of, training_of, training_batch, time_or,
}
use solprobe.Training.Colab.Posted.{post-training_batch}
use solprobe.Tests.Data.{floats}
use solprobe.Tests.Data.{world as full_world}

-- Natural numbers as floating point numbers: two bytes hold up to 65535, and powers end at a million.
abbrev machine : Machine ℕ
machine = record {
  power = λ x y. if ltb 1000 x then none else if ltb 100 y then none else some (x * y);
  exp = λ x. 1;
  pack_f32 = λ x. if ltb x 65536 then some (x % 256, x / 256, 0, 0) else none;
  unpack_f32 = λ a b c d. a + 256 * b;
}

abbrev no_environ : String → Option String
no_environ name = none

abbrev callback : Callback ℕ
callback = init no_environ "node-0" 15000 none none none none

-- The gradient norm of one parameter with the norm 2.
norm_of_two : compute_grad_norm floats machine (some 2 ∷ []) ≡ ok 20
unfolding compute_grad_norm
norm_of_two = refl

on_train_batch_end-read_example :
    Written floats machine callback 2000 1000
      (pos 7)
      300
      20
      3
      (throughput_of floats machine 4096 2)
      (mfu_of floats machine callback.peak_tps (throughput_of floats machine 4096 2))
      (on_train_batch_end floats machine true 1000 callback
        (pos 7)
        300
        (some 2 ∷ [])
        (3 ∷ [])
        2
        4096)
unfolding init
on_train_batch_end-read_example =
    on_train_batch_end-read floats machine callback 2000 1000 (pos 7) 300 (some 2 ∷ []) 20 3 [] 2
      4096 refl refl (omega arith) norm_of_two

-- A step, a metric without a job, and a step with a negative number.
abbrev calls : List (Call ℕ)
calls =
    batch_end true 1000 (pos 7) 300 (some 2 ∷ []) (3 ∷ []) 2 4096
    ∷ metric 1100 "entropy" 5 none
    ∷ batch_end true 1200 (negsuc 0) 300 (none ∷ []) (3 ∷ []) 2 4096
    ∷ []

performed-Ended_example :
    ((foldl (perform floats machine (λ url. url)) callback calls).closed ≡ true)
    ⊎ Ended floats machine (λ url. url) (foldl (perform floats machine (λ url. url)) callback calls)
unfolding init
performed-Ended_example = performed-Ended floats machine (λ url. url) callback calls refl

abbrev diloco : DilocoCallback ℕ
diloco = init_diloco floats no_environ "node-0" (some "/run")

abbrev history : List (ℕ × Step ℕ)
history = (1500, outer (pos 1) 180 45 320 98 true) ∷ (1000, inner (pos 9) (pos 0) 210) ∷ []

call-latest_example :
    Shown machine
      (latest diloco.values ((2000, inner (pos 1) (pos 1) 205) ∷ history))
      diloco.node_id
      (after machine diloco history).file
      6000
      2000
      (call machine (after machine diloco history) (2000, inner (pos 1) (pos 1) 205))
unfolding init_diloco
call-latest_example =
    call-latest machine diloco (2000, inner (pos 1) (pos 1) 205) history 6000 refl refl
      (omega arith)

abbrev chance : Chance ℕ
chance = record { clock = λ step k. 1000 * step + k; uniform = λ step k low high. high }

-- The user interrupts the scenario after twelve of its thirty steps.
abbrev interrupted : Turn
interrupted = simulate floats machine chance diloco_drift (pos 30) (some 12)

simulate-Unread_example :
    (read_training machine 12000 "node-0" (some interrupted.1.train) ≡ none)
    × (read_diloco machine 12000 "node-0" interrupted.1.diloco ≡ none)
simulate-Unread_example =
    simulate-Unread floats machine chance diloco_drift (pos 30) (some 12) "node-0" 12000

-- No power of ten can be represented.
abbrev flat_machine : Machine ℕ
flat_machine = record machine { power = λ x y. none }

simulate-overflow_example :
    (e : Error) × ((simulate floats flat_machine chance gradient_explosion (pos 300) none).0
      ≡ some e)
unfolding total_steps spike_power
simulate-overflow_example =
    simulate-overflow floats flat_machine chance 250 (pos 300) none (omega arith) refl (omega arith)

abbrev notebook : Client
notebook = record {
  backend_url = "http://localhost:8000";
  api_key = "key";
  node_id = "colab-t4-0";
  job_id = "j1";
  gpu_model = "T4";
}

abbrev sample : GpuReadings ℕ
sample = record {
  gpu_temp_c = 60;
  gpu_utilization_pct = 90;
  fb_used_mb = 100;
  fb_free_mb = 200;
  power_usage_w = 65;
}

abbrev overrides : Given ℕ
overrides = record {
  gpu_utilization_pct = none;
  gpu_temp_c = some 61;
  fb_used_mb = none;
  fb_free_mb = none;
}

post-training_batch_example :
    (w' : World ℕ) × (post_metrics_batches full_world (
        single
          (training_batch floats notebook 5000 none sample overrides 3 25 1 1 100 9, 5001, 5002))
      ≡ (replied 201 1, w'))
    × (st : NodeStatus ℕ) × (get_node_status w'.metrics notebook.node_id ≡ some st)
    × (st.gpu_model ≡ notebook.gpu_model)
    × (st.latest_metrics ≡ gpu_of floats notebook (time_or floats none 5000) sample overrides ∷ [])
    × (st.latest_training
        ≡ some (training_of floats notebook (time_or floats none 5000) 3 25 1 1 100 9))
post-training_batch_example =
    post-training_batch floats full_world notebook 5000 none sample overrides 3 25 1 1 100 9 5001
      5002
