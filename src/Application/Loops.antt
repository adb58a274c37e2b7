-- ===== src/Application/Loops.antt =====
-- `_detector_loop` of backend/app/main.py and the delays that all background loops share.
use solprobe.Prelude.{
  ℕ, zero, suc, ◌+◌, ◌*◌, ◌≤◌, min, Bool, true, false, Option, none, some, List, [], ◌∷◌, All,
  arith,
}
use native.Mathlib.Nat.{mul-le-mul_left}
use solprobe.Models.Alerts.{Alert, Anomaly}

-- 2 ** n
unfoldable pub power_of_two : ℕ → ℕ
power_of_two zero = 1
power_of_two (suc n) = 2 * power_of_two n

-- base_interval * min(2 ** consecutive_failures, 30)
unfoldable pub delay_after : ℕ → ℕ → ℕ
unfolding power_of_two
delay_after base_interval consecutive_failures =
    base_interval * min (power_of_two consecutive_failures) 30

-- The count of failures after a round that raised, or did not.
abbrev pub failures_after : Bool → ℕ → ℕ
failures_after true failures = failures + 1
failures_after false failures = 0

-- The loop: the delay before each of the rounds, of which each raises or not.
unfoldable pub delays : ℕ → ℕ → List Bool → List ℕ
unfolding delay_after
delays base_interval failures [] = delay_after base_interval failures ∷ []
delays base_interval failures (raised ∷ rounds) =
    delay_after base_interval failures
    ∷ delays base_interval (failures_after raised failures) rounds

-- `for anomaly in findings: await broadcast_fn(anomaly.alert)`
unfoldable pub broadcast_findings : {S F : Type 0} → (S → Alert F → S) → S → List (Anomaly F) → S
broadcast_findings broadcast s [] = s
broadcast_findings broadcast s (a ∷ rest) = broadcast_findings broadcast (broadcast s a.alert) rest

-- A round of `_detector_loop`: `findings` is what the detector returned, or `none` if it raised, and
-- `broadcast` sends one alert. The count of failures starts anew once the detector has returned.
unfoldable pub detector_round :
    {S F : Type 0} → (S → Alert F → S) → S → Option (List (Anomaly F)) → ℕ → S × ℕ
unfolding broadcast_findings
detector_round broadcast s none failures = (s, failures + 1)
detector_round broadcast s (some findings) failures = (broadcast_findings broadcast s findings, 0)

power_of_two-pos : (n : ℕ) → 1 ≤ power_of_two n
unfolding power_of_two
power_of_two-pos zero = omega arith
power_of_two-pos (suc n) = omega (arith, power_of_two-pos n)

delay_after-bounds :
    (base_interval failures : ℕ)
    → (base_interval ≤ delay_after base_interval failures)
      × (delay_after base_interval failures ≤ base_interval * 30)
unfolding delay_after
delay_after-bounds base_interval failures =
    let factor : ℕ = min (power_of_two failures) 30 in
    let low : 1 ≤ factor = omega (arith, power_of_two-pos failures) in
    let high : factor ≤ 30 = omega arith in
    (omega (arith, mul-le-mul_left base_interval low), mul-le-mul_left base_interval high)

-- Whatever the outcomes of its rounds, a loop waits before each at least its interval, and at most
-- thirty times that.
pub delays-bounds :
    (base_interval failures : ℕ) (rounds : List Bool)
    → All
        (λ d. (base_interval ≤ d) × (d ≤ base_interval * 30))
        (delays base_interval failures rounds)
unfolding delays
delays-bounds base_interval failures [] = (delay_after-bounds base_interval failures, tt)
delays-bounds base_interval failures (raised ∷ rounds) = (
  delay_after-bounds base_interval failures,
  delays-bounds base_interval (failures_after raised failures) rounds,
)
