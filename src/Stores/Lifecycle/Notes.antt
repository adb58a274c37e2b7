-- ===== src/Stores/Lifecycle/Notes.antt =====
-- What the lifecycle methods do to each alert.
use solprobe.Prelude.{
  ℕ, ◌≡◌, refl, String, true, false, Option, some, [], ◌∷◌, ◌++◌, ◌==◌, string_eq, if◌then◌else◌,
  Bool-cases, ◌⊎◌, inl, inr,
}
use solprobe.Prelude.Dict.{put, get-put}
use solprobe.Prelude.Result.{ok, err, value_error}
use solprobe.Stores.Lifecycle.{
  Entry, LifecycleStore, is_valid_state, entry_or_new, set_state, add_note, get_entry,
}

-- `set_state` refuses exactly the states that are not valid. Otherwise it sets the state of that
-- alert and keeps its notes, returns the entry, and leaves every other alert alone.
pub set_state_lem :
    (s : LifecycleStore) (alert_id state : String)
    → ((is_valid_state state ≡ false) × (set_state s alert_id state ≡ err value_error))
      ⊎ ((is_valid_state state ≡ true)
          × (t : LifecycleStore) × (e : Entry) × (set_state s alert_id state ≡ ok (t, e))
          × (e.state ≡ some state)
          × (e.notes ≡ (entry_or_new s alert_id).notes)
          × ((j : String) → get_entry t j ≡ (if alert_id == j then some e else get_entry s j)))
unfolding set_state get_entry
set_state_lem s alert_id state =
    let e : Entry = record (entry_or_new s alert_id) { state = some state } in
    elim (Bool-cases (is_valid_state state)) [
      | inl good ↦ inr (
        good,
        record s { entries = put alert_id e s.entries },
        e,
        rw good refl,
        refl,
        refl,
        λ j. get-put alert_id j e s.entries,
      )
      | inr bad ↦ inl (bad, rw bad refl)
    ]

-- `add_note` appends one note to the alert, keeps its state, returns the entry, and leaves every
-- other alert alone.
pub get_entry-add_note :
    (s : LifecycleStore) (alert_id text : String) (author : Option String) (now : ℕ) (j : String)
    → ((add_note s alert_id text author now).1.state ≡ (entry_or_new s alert_id).state)
      × ((add_note s alert_id text author now).1.notes
          ≡ (entry_or_new s alert_id).notes
            ++ record { text = text; author = author; timestamp_ms = now } ∷ [])
      × (get_entry (add_note s alert_id text author now).0 j
          ≡ (if alert_id == j then some (add_note s alert_id text author now).1 else get_entry s j))
unfolding add_note get_entry
get_entry-add_note s alert_id text author now j = (refl, refl, get-put alert_id j _ s.entries)
