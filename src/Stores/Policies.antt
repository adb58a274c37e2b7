-- ===== src/Stores/Policies.antt =====
-- `PolicyStore` of backend/app/stores.py: the monitoring policies and their cooldowns, over the
-- floating point numbers `fl`.
pub mod Cooldowns
pub mod Edits
use solprobe.Prelude.{
  ℕ, String, Bool, true, false, not, Option, none, some, List, [], ◌∷◌, if◌then◌else◌, ◌==◌,
  string_eq, pair_eq, option_eq, is_some, filter_by, contains,
}
use solprobe.Prelude.Int.{pos, sub_ℕ, ltb_ℤ}
use solprobe.Prelude.Floats.{Floats}
use solprobe.Prelude.Dict.{Dict, get, put, remove, values, keep_items}
use solprobe.Prelude.Result.{Result, ok, err, key_error}
use solprobe.Models.Policies.{Policy, PolicyCreate, PolicyUpdate}

-- (policy_id, node_id, job_id)
abbrev pub CooldownKey : Type 0
CooldownKey = String × (Option String × Option String)

abbrev pub cooldown_key : String → Option String → Option String → CooldownKey
cooldown_key policy_id node_id job_id = (policy_id, (node_id, job_id))

pub record PolicyStore (F : Type 0) : Type 0 where
  pub policies : Dict String (Policy F)
  pub cooldowns : Dict CooldownKey ℕ

abbrev pub or_old {ℓ} : {A : Type ℓ} → Option A → A → A
or_old none old = old
or_old (some new) old = new

module _ {F : Type 0} where
  abbrev pub policy_of : PolicyCreate F → ℕ → Policy F
  policy_of c now = record {
    policy_id = c.policy_id;
    name = c.name;
    enabled = c.enabled;
    scope = c.scope;
    metric = c.metric;
    condition = c.condition;
    severity = c.severity;
    cooldown_seconds = c.cooldown_seconds;
    description = c.description;
    created_at_ms = now;
    updated_at_ms = now;
    last_triggered_at_ms = none;
  }

  unfoldable pub create : PolicyStore F → PolicyCreate F → ℕ → Result (PolicyStore F × Policy F)
  unfolding get put
  create s c now =
      if is_some (get c.policy_id s.policies)
      then err key_error
      else ok
          (record s { policies = put c.policy_id (policy_of c now) s.policies }, policy_of c now)

  abbrev pub patched : PolicyUpdate F → ℕ → Policy F → Policy F
  patched u now p = record p {
    name = or_old u.name p.name;
    enabled = or_old u.enabled p.enabled;
    scope = or_old u.scope p.scope;
    metric = or_old u.metric p.metric;
    condition = or_old u.condition p.condition;
    severity = or_old u.severity p.severity;
    cooldown_seconds = or_old u.cooldown_seconds p.cooldown_seconds;
    description = or_old u.description p.description;
    updated_at_ms = now;
  }

  abbrev pub toggled : ℕ → Policy F → Policy F
  toggled now p = record p { enabled = not p.enabled; updated_at_ms = now }

  -- the edit of an entry that `update` and `toggle` share; they return a copy of the entry
  abbrev pub edit :
      (Policy F → Policy F) → PolicyStore F → String → PolicyStore F × Option (Policy F)
  edit f s policy_id = elim (get policy_id s.policies) [
    | none ↦ (s, none)
    | some p ↦ (record s { policies = put policy_id (f p) s.policies }, some (f p))
  ]

  unfoldable pub update :
      PolicyStore F → String → PolicyUpdate F → ℕ → PolicyStore F × Option (Policy F)
  unfolding get put
  update s policy_id u now = edit (patched u now) s policy_id

  unfoldable pub toggle : PolicyStore F → String → ℕ → PolicyStore F × Option (Policy F)
  unfolding get put
  toggle s policy_id now = edit (toggled now) s policy_id

  unfoldable pub delete : PolicyStore F → String → PolicyStore F × Bool
  unfolding get remove keep_items
  delete s policy_id =
      if is_some (get policy_id s.policies)
      then (
        record s {
          policies = remove policy_id s.policies;
          cooldowns = keep_items (λ k _. not (k.0 == policy_id)) s.cooldowns;
        },
        true,
      )
      else (s, false)

  unfoldable pub get_policy : PolicyStore F → String → Option (Policy F)
  unfolding get
  get_policy s policy_id = get policy_id s.policies

  unfoldable pub list_all : PolicyStore F → List (Policy F)
  list_all s = values s.policies

  unfoldable pub list_enabled : PolicyStore F → List (Policy F)
  list_enabled s = filter_by (λ p. p.enabled) (values s.policies)

  abbrev stamped : ℕ → Policy F → Policy F
  stamped now p = record p { last_triggered_at_ms = some now }

  unfoldable pub mark_triggered :
      PolicyStore F → String → Option String → Option String → ℕ → PolicyStore F
  unfolding get put
  mark_triggered s policy_id node_id job_id now = record s {
    cooldowns = put (cooldown_key policy_id node_id job_id) now s.cooldowns;
    policies = elim (get policy_id s.policies) [
      | none ↦ s.policies
      | some p ↦ put policy_id (stamped now p) s.policies
    ];
  }

module _ (fl : Floats) where
  open fl use {F, le, mul, of_int, to_int}

  -- the test against the last trigger; `none` is the exception of `int` at a product that is no
  -- finite number
  abbrev pub still_cooling : F → ℕ → Option ℕ → Option Bool
  still_cooling cooldown_seconds now none = some false
  still_cooling cooldown_seconds now (some last) =
      elim (to_int (mul cooldown_seconds (of_int (pos 1000)))) [
        | none ↦ none
        | some span ↦ some (ltb_ℤ (sub_ℕ now last) span)
      ]

  unfoldable pub in_cooldown :
      PolicyStore F → String → Option String → Option String → F → ℕ → Option Bool
  unfolding get
  in_cooldown s policy_id node_id job_id cooldown_seconds now =
      if le cooldown_seconds (of_int (pos 0))
      then some false
      else still_cooling cooldown_seconds now
          (get (cooldown_key policy_id node_id job_id) s.cooldowns)
