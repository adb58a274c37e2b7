-- ===== src/Stores/Lifecycle.antt =====
-- `AlertLifecycleStore` of backend/app/stores.py: the state and the notes of each alert.
pub mod Notes
pub mod Open
use solprobe.Prelude.{
  ℕ, String, Bool, true, false, not, Option, none, some, List, [], ◌∷◌, ◌++◌, if◌then◌else◌, ◌==◌,
  string_eq, contains,
}
use solprobe.Prelude.Dict.{Dict, get, put, keys, keep_items}
use solprobe.Prelude.Result.{Result, ok, err, value_error}

pub record Note : Type 0 where
  pub text : String
  pub author : Option String
  pub timestamp_ms : ℕ

pub record Entry : Type 0 where
  pub state : Option String
  pub notes : List Note

pub record LifecycleStore : Type 0 where
  pub entries : Dict String Entry

-- `_VALID_LIFECYCLE_STATES` and `_CLOSED_LIFECYCLE_STATES`
abbrev pub valid_states : List String
valid_states = "acknowledged" ∷ "investigating" ∷ "resolved" ∷ "ignored" ∷ []

abbrev pub closed_states : List String
closed_states = "resolved" ∷ "ignored" ∷ []

unfoldable pub is_valid_state : String → Bool
is_valid_state state = contains valid_states state

-- `entry["state"] in _CLOSED_LIFECYCLE_STATES`, where the state may be None
unfoldable pub is_closed : Entry → Bool
is_closed entry = elim entry.state [ none ↦ false | some state ↦ contains closed_states state ]

abbrev pub new_entry : Entry
new_entry = record { state = none; notes = [] }

unfoldable pub entry_or_new : LifecycleStore → String → Entry
unfolding get
entry_or_new s alert_id = elim (get alert_id s.entries) [ none ↦ new_entry | some e ↦ e ]

-- The entry that a method returns is a copy, `_snapshot`, and a value here.
unfoldable pub set_state : LifecycleStore → String → String → Result (LifecycleStore × Entry)
unfolding put
set_state s alert_id state =
    if is_valid_state state
    then (let entry = record (entry_or_new s alert_id) { state = some state } in
        ok (record s { entries = put alert_id entry s.entries }, entry))
    else err value_error

unfoldable pub add_note :
    LifecycleStore → String → String → Option String → ℕ → LifecycleStore × Entry
unfolding put
add_note s alert_id text author now =
    let note : Note = record { text = text; author = author; timestamp_ms = now } in
    let old = entry_or_new s alert_id in
    let entry = record old { notes = old.notes ++ note ∷ [] } in
    (record s { entries = put alert_id entry s.entries }, entry)

unfoldable pub get_entry : LifecycleStore → String → Option Entry
unfolding get
get_entry s alert_id = get alert_id s.entries

unfoldable pub get_open_alert_ids : LifecycleStore → List String
unfolding keep_items is_closed
get_open_alert_ids s = keys (keep_items (λ _ e. not (is_closed e)) s.entries)
