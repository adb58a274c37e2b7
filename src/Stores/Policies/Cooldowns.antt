-- ===== src/Stores/Policies/Cooldowns.antt =====
-- Marks of triggers, cooldowns, and what the deletion of a policy does to them.
use solprobe.Prelude.{
  ℕ, ◌≡◌, refl, String, true, false, not, Option, none, some, arith, ◌==◌, string_eq, pair_eq,
  option_eq, eq_iff, if◌then◌else◌, Bool-cases, inl, inr, is_some,
}
use solprobe.Prelude.Int.{ℤ, pos, sub_ℕ, ltb_ℤ}
use solprobe.Prelude.Floats.{Floats}
use solprobe.Prelude.Dict.{get-put, get-remove, get-keep_items}
use solprobe.Stores.Policies.{
  PolicyStore, CooldownKey, cooldown_key, delete, get_policy, mark_triggered, in_cooldown,
}

module _ (fl : Floats) where
  open fl use {F, le, mul, of_int, to_int}

  -- For a positive cooldown with a finite `int(cooldown_seconds * 1000)`: after a trigger, the key of
  -- that policy, node and job is in cooldown exactly while less than that many milliseconds have gone
  -- by, and every other key is as it was.
  pub in_cooldown-mark_triggered :
      (s : PolicyStore F) (policy_id : String) (node_id job_id : Option String) (t : ℕ)
      (cooldown : F) (span : ℤ)
      → le cooldown (of_int (pos 0)) ≡ false
      → to_int (mul cooldown (of_int (pos 1000))) ≡ some span
      → (q : String) (n j : Option String) (now : ℕ)
      → in_cooldown fl (mark_triggered s policy_id node_id job_id t) q n j cooldown now ≡ (
          if ◌==◌ {A = CooldownKey} (cooldown_key policy_id node_id job_id) (cooldown_key q n j)
          then some (ltb_ℤ (sub_ℕ now t) span)
          else in_cooldown fl s q n j cooldown now)
  unfolding in_cooldown mark_triggered
  in_cooldown-mark_triggered s policy_id node_id job_id t cooldown span positive finite q n j now =
      let key : CooldownKey = cooldown_key policy_id node_id job_id in
      let other : CooldownKey = cooldown_key q n j in
      elim (Bool-cases (key == other)) [
        | inl same ↦ rw (positive, get-put key other t s.cooldowns, same) (rw finite refl)
        | inr ne ↦ rw (positive, get-put key other t s.cooldowns, ne) refl
      ]

  -- The deletion of a stored policy reports true; the policy is gone with all its cooldowns, and the
  -- other policies and their cooldowns stay.
  pub delete_lem :
      (s : PolicyStore F) (policy_id q : String) (n j : Option String) (cooldown : F) (now : ℕ)
      → is_some (get_policy s policy_id) ≡ true
      → ((delete s policy_id).1 ≡ true)
        × (get_policy (delete s policy_id).0 q ≡ (if policy_id == q then none else get_policy s q))
        × (in_cooldown fl (delete s policy_id).0 q n j cooldown now
            ≡ (if policy_id == q then some false else in_cooldown fl s q n j cooldown now))
  unfolding in_cooldown delete get_policy
  delete_lem s policy_id q n j cooldown now h = (
    rw h refl,
    rw h (get-remove policy_id q s.policies),
    rw h (
        rw (get-keep_items (λ k. not (k.0 == policy_id)) (cooldown_key q n j) s.cooldowns)
          (ground (arith, eq_iff policy_id q, eq_iff q policy_id))),
  )
