-- ===== src/Stores/Policies/Edits.antt =====
-- Creating, patching and toggling policies.
use solprobe.Prelude.{
  ℕ, ◌≡◌, refl, String, true, Option, none, some, arith, ◌==◌, string_eq, eq_iff, if◌then◌else◌,
  Option-cases, ◌⊎◌, inl, inr, is_some,
}
use solprobe.Prelude.Dict.{get, put, get-put}
use solprobe.Prelude.Result.{ok, err, key_error}
use solprobe.Models.Policies.{Policy, PolicyCreate, PolicyUpdate}
use solprobe.Stores.Policies.{
  PolicyStore, create, update, toggle, get_policy, policy_of, patched, toggled, edit,
}

module _ {F : Type 0} where
  -- A policy is refused exactly if its id is taken. Otherwise it is stored, stamped with the time
  -- and not yet triggered, and neither another policy nor a cooldown changes.
  pub create_lem :
      (s : PolicyStore F) (c : PolicyCreate F) (now : ℕ)
      → ((is_some (get_policy s c.policy_id) ≡ true) × (create s c now ≡ err key_error))
        ⊎ ((get_policy s c.policy_id ≡ none)
            × (t : PolicyStore F) × (create s c now ≡ ok (t, policy_of c now))
            × (t.cooldowns ≡ s.cooldowns)
            × ((q : String)
                → get_policy t q
                  ≡ (if c.policy_id == q then some (policy_of c now) else get_policy s q)))
  unfolding create get_policy
  create_lem s c now = elim (Option-cases (get c.policy_id s.policies)) [
    | inl free ↦ inr (
      free,
      record s { policies = put c.policy_id (policy_of c now) s.policies },
      rw free refl,
      refl,
      λ q. get-put c.policy_id q (policy_of c now) s.policies,
    )
    | inr (old, taken) ↦ inl (rw taken refl, rw taken refl)
  ]

  abbrev pub edited : (Policy F → Policy F) → Option (Policy F) → Option (Policy F)
  edited f none = none
  edited f (some p) = some (f p)

  -- What `update` and `toggle` have in common: `f` is applied to the entry of the policy, which is
  -- returned, and nothing else changes; a policy that is not there is reported by `none`.
  abbrev pub Edits :
      (Policy F → Policy F) → PolicyStore F → String → PolicyStore F × Option (Policy F) → Type 0
  Edits f s policy_id r =
      (r.1 ≡ edited f (get_policy s policy_id))
      × (r.0.cooldowns ≡ s.cooldowns)
      × ((q : String)
          → get_policy r.0 q
            ≡ (if policy_id == q then edited f (get_policy s policy_id) else get_policy s q))

  edit-Edits :
      (f : Policy F → Policy F) (s : PolicyStore F) (policy_id : String)
      → Edits f s policy_id (edit f s policy_id)
  unfolding get_policy
  edit-Edits f s policy_id = elim (Option-cases (get policy_id s.policies)) [
    | inl e ↦ (
      rw (e, edit) refl,
      rw (e, edit) refl,
      λ q. rw (e, edit) (ground (arith, eq_iff policy_id q)),
    )
    | inr (p, e) ↦ (
      rw (e, edit) refl,
      rw (e, edit) refl,
      λ q. rw (e, edit) (get-put policy_id q (f p) s.policies),
    )
  ]

  -- A patch sets the fields that it gives and the update time of its policy, returns the entry,
  -- and changes neither another policy nor a cooldown.
  pub update-Edits :
      (s : PolicyStore F) (policy_id : String) (u : PolicyUpdate F) (now : ℕ)
      → Edits (patched u now) s policy_id (update s policy_id u now)
  unfolding update
  update-Edits s policy_id u now = edit-Edits (patched u now) s policy_id

  -- A toggle flips whether its policy is enabled and sets its update time, returns the entry, and
  -- changes neither another policy nor a cooldown.
  pub toggle-Edits :
      (s : PolicyStore F) (policy_id : String) (now : ℕ)
      → Edits (toggled now) s policy_id (toggle s policy_id now)
  unfolding toggle
  toggle-Edits s policy_id now = edit-Edits (toggled now) s policy_id
