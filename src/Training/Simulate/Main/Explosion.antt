-- ===== src/Training/Simulate/Main/Explosion.antt =====
-- How the scenario `gradient_explosion` of the simulator ends.
use solprobe.Prelude.{
  ℕ, zero, suc, ◌+◌, ◌≤◌, ◌<◌, ◌≡◌, refl, subst, arith, false, Option, none, some, inl, inr,
  Bool-cases, ltb, nat_beq,
}
use solprobe.Prelude.Int.{ℤ}
use solprobe.Prelude.Floats.{Floats}
use solprobe.Prelude.Result.{Error}
use solprobe.Training.Struct.{Machine}
use solprobe.Training.Simulate.{
  Files, Turn, Chance, and_then, play, total_steps, spike_power, gradient_explosion_step,
}
use solprobe.Training.Simulate.Main.{
  gradient_explosion, steps_played, scenario_step, scenario, simulate,
}

abbrev Raises : Turn → Type 0
Raises t = (e : Error) × (t.0 ≡ some e)

and_then-first : (t : Turn) (next : Files → Turn) → Raises t → Raises (and_then t next)
and_then-first (none, files) next (e, h) = cc
and_then-first (some e, files) next h = h

and_then-next :
    (t : Turn) (next : Files → Turn)
    → ((files : Files) → Raises (next files))
    → Raises (and_then t next)
and_then-next (none, files) next h = h files
and_then-next (some e, files) next h = (e, refl)

-- A run over a step that always raises an exception raises one.
play-Raises :
    (body : ℕ → Files → Turn) (k : ℕ)
    → ((files : Files) → Raises (body k files))
    → (n start : ℕ) → start ≤ k
    → k < start + n
    → (files : Files) → Raises (play body n start files)
unfolding play
play-Raises body k raises zero start low high files = absurd (omega arith)
play-Raises body k raises (suc n) start low high files = elim (Bool-cases (nat_beq start k)) [
  | inl t ↦
      let here : k ≡ start = ground arith in
      and_then-first (body start files) _ (subst (λ j. Raises (body j files)) here (raises files))
  | inr f ↦
      let next : start + 1 ≤ k = ground arith in
      and_then-next (body start files) _
        (play-Raises body k raises n (start + 1) next (omega arith))
]

module _ (fl : Floats) (m : Machine fl.F) (ch : Chance fl.F) where
  open fl use {F}

  step-Raises :
      (total k : ℕ)
      → 200 ≤ k
      → spike_power fl m ch k ≡ none
      → (files : Files) → Raises (gradient_explosion_step fl m ch total k files)
  unfolding gradient_explosion_step
  step-Raises total k late large files =
      let past : ltb k 200 ≡ false = ground arith in rw (past, large) (_, refl)

  -- If the power of ten of some step of the explosion is too large for a floating point number, a
  -- run that reaches this step ends with an exception.
  pub simulate-overflow :
      (k : ℕ) (duration : ℤ) (interrupt : Option ℕ)
      → 200 ≤ k
      → spike_power fl m ch k ≡ none
      → k < steps_played duration interrupt
      → (e : Error) × ((simulate fl m ch gradient_explosion duration interrupt).0 ≡ some e)
  unfolding simulate scenario scenario_step
  simulate-overflow k duration interrupt late large reached =
      play-Raises (scenario_step fl m ch gradient_explosion (total_steps duration)) k
        (step-Raises (total_steps duration) k late large) (steps_played duration interrupt) 0
        (omega arith) (omega arith) _
