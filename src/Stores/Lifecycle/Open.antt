-- ===== src/Stores/Lifecycle/Open.antt =====
-- Which alerts are open after any calls of the lifecycle methods.
use solprobe.Prelude.{
  ℕ, ◌≡◌, refl, ap, ◌∙◌, String, Bool, true, false, not, Option, none, some, List, [], ◌∷◌, arith,
  ◌==◌, string_eq, eq_iff, if◌then◌else◌, contains, Bool-cases, inl, inr, ◌++◌,
}
use solprobe.Prelude.Dict.{Dict, get, keys, keep_items, get-put}
use solprobe.Prelude.Dict.Order.{Distinct, Distinct-put, get-eq-none}
use solprobe.Prelude.Result.{Result, ok, err}
use solprobe.Stores.Lifecycle.{
  Entry, Note, new_entry, LifecycleStore, closed_states, is_valid_state, is_closed, entry_or_new,
  set_state, add_note, get_open_alert_ids,
}

-- A call of a method that changes the store.
pub data Change : Type 0 where
  sets : String → String → Change
  adds : String → String → Option String → ℕ → Change

abbrev first_of : LifecycleStore → Result (LifecycleStore × Entry) → LifecycleStore
first_of s (ok (t, e)) = t
first_of s (err e) = s

-- The store after a call; a state that is refused changes nothing.
unfoldable pub changed : LifecycleStore → Change → LifecycleStore
unfolding set_state add_note
changed s (sets alert_id state) = first_of s (set_state s alert_id state)
changed s (adds alert_id text author now) = (add_note s alert_id text author now).0

unfoldable pub changed_all : LifecycleStore → List Change → LifecycleStore
unfolding changed
changed_all s [] = s
changed_all s (c ∷ changes) = changed_all (changed s c) changes

abbrev pub empty_lifecycle : LifecycleStore
empty_lifecycle = record { entries = [] }

-- What a call of `set_state` says: a valid state decides, and one that is refused says nothing new.
abbrev stated : String → Option Bool → Option Bool
stated state before =
    if state == "resolved"
    then some false
    else if state == "ignored"
    then some false
    else if state == "acknowledged"
    then some true
    else if state == "investigating"
    then some true
    else before

-- What a note says: it opens an alert that no call has named.
abbrev noted : Option Bool → Option Bool
noted none = some true
noted (some b) = some b

-- What the calls say of an alert, from what was said before: nothing, or whether it is open.
abbrev pub next : String → Option Bool → Change → Option Bool
next j before (sets i state) = if i == j then stated state before else before
next j before (adds i text author now) = if i == j then noted before else before

unfoldable pub said : String → Option Bool → List Change → Option Bool
said j before [] = before
said j before (c ∷ changes) = said j (next j before c) changes

abbrev pub is_said_open : Option Bool → Bool
is_said_open none = false
is_said_open (some b) = b

-- What the store says of an alert.
abbrev status : Option Entry → Option Bool
status none = none
status (some e) = some (not (is_closed e))

open_keys :
    (d : Dict String Entry) (j : String)
    → Distinct (keys d)
    → contains (keys (keep_items (λ _ e. not (is_closed e)) d)) j ≡ is_said_open (status (get j d))
unfolding get keep_items
open_keys [] j h = refl
open_keys ((i, e) ∷ d) j h =
    ground (arith, eq_iff i j, eq_iff j i, open_keys d j h.1, get-eq-none i d h.0)

changed-Distinct :
    (s : LifecycleStore) (c : Change)
    → Distinct (keys s.entries)
    → Distinct (keys (changed s c).entries)
unfolding changed set_state add_note
changed-Distinct s (sets i state) h = elim (Bool-cases (is_valid_state state)) [
  | inl good ↦ rw good (Distinct-put i _ s.entries h)
  | inr bad ↦ rw bad h
]
changed-Distinct s (adds i text author now) h = Distinct-put i _ s.entries h

stated-valid :
    (state : String) (before : Option Bool)
    → is_valid_state state ≡ true
    → some (not (contains closed_states state)) ≡ stated state before
unfolding is_valid_state
stated-valid state before h = ground arith

stated-invalid :
    (state : String) (before : Option Bool)
    → is_valid_state state ≡ false
    → before ≡ stated state before
unfolding is_valid_state
stated-invalid state before h = ground arith

entries-sets :
    (s : LifecycleStore) (i j state : String)
    → is_valid_state state ≡ true
    → get j (changed s (sets i state)).entries ≡ (
        if i == j then some (record (entry_or_new s i) { state = some state }) else get j s.entries)
unfolding changed set_state
entries-sets s i j state good = rw good (get-put i j _ s.entries)

changed-refused :
    (s : LifecycleStore) (i state : String)
    → is_valid_state state ≡ false
    → changed s (sets i state) ≡ s
unfolding changed set_state
changed-refused s i state bad = rw bad refl

status-sets :
    (s : LifecycleStore) (i j state : String)
    → status (get j (changed s (sets i state)).entries)
      ≡ next j (status (get j s.entries)) (sets i state)
unfolding is_closed
status-sets s i j state = elim (Bool-cases (is_valid_state state)) [
  | inl good ↦ elim (Bool-cases (i == j)) [
    | inl same ↦ rw (entries-sets s i j state good, same) (stated-valid state _ good)
    | inr other ↦ rw (entries-sets s i j state good, other) refl
  ]
  | inr bad ↦ elim (Bool-cases (i == j)) [
    | inl same ↦ rw same (
        ap (λ t. status (get j t.entries)) (changed-refused s i state bad)
        ∙ stated-invalid state _ bad)
    | inr other ↦ rw other (ap (λ t. status (get j t.entries)) (changed-refused s i state bad))
  ]
]

abbrev entry_of : Option Entry → Entry
entry_of none = new_entry
entry_of (some e) = e

noted-entry_of :
    (notes : List Note) (o : Option Entry)
    → some (not (is_closed (record (entry_of o) { notes = notes }))) ≡ noted (status o)
unfolding is_closed
noted-entry_of notes none = refl
noted-entry_of notes (some e) = refl

-- A note keeps the state, and a new entry has none.
status-noted :
    (s : LifecycleStore) (i : String) (notes : List Note) (o : Option Entry)
    → get i s.entries ≡ o
    → some (not (is_closed (record (entry_or_new s i) { notes = notes }))) ≡ noted (status o)
unfolding entry_or_new is_closed
status-noted s i notes o h =
    ap (λ p. some (not (is_closed (record (entry_of p) { notes = notes })))) h
    ∙ noted-entry_of notes o

status-notes :
    (s : LifecycleStore) (i j text : String) (author : Option String) (now : ℕ)
    → status (get j (changed s (adds i text author now)).entries)
      ≡ next j (status (get j s.entries)) (adds i text author now)
unfolding changed add_note
status-notes s i j text author now =
    let all : List Note =
      (entry_or_new s i).notes
      ++ record { text = text; author = author; timestamp_ms = now } ∷ [] in
    rw (get-put i j (record (entry_or_new s i) { notes = all }) s.entries)
      (elim (Bool-cases (i == j)) [
        | inl same ↦ rw same (
            status-noted s i all (get j s.entries)
              (ap (λ k. get k s.entries) ((eq_iff i j).0 same)))
        | inr other ↦ rw other refl
      ])

status-changed :
    (s : LifecycleStore) (j : String) (c : Change)
    → status (get j (changed s c).entries) ≡ next j (status (get j s.entries)) c
status-changed s j (sets i state) = status-sets s i j state
status-changed s j (adds i text author now) = status-notes s i j text author now

contains-changed_all :
    (changes : List Change) (s : LifecycleStore) (j : String)
    → Distinct (keys s.entries)
    → contains (get_open_alert_ids (changed_all s changes)) j
      ≡ is_said_open (said j (status (get j s.entries)) changes)
unfolding changed_all said get_open_alert_ids
contains-changed_all [] s j h = open_keys s.entries j h
contains-changed_all (c ∷ changes) s j h =
    contains-changed_all changes (changed s c) j (changed-Distinct s c h)
    ∙ ap (λ before. is_said_open (said j before changes)) (status-changed s j c)

-- After any calls of set_state and add_note on a new store, an alert is listed as open exactly if a
-- call named it and, of the states that were accepted for it, the last is neither resolved nor
-- ignored, or there is none because it has only notes. An alert that no call named is not listed, and
-- a state other than the four valid ones changes nothing.
pub contains-get_open_alert_ids :
    (changes : List Change) (j : String)
    → contains (get_open_alert_ids (changed_all empty_lifecycle changes)) j
      ≡ is_said_open (said j none changes)
unfolding get
contains-get_open_alert_ids changes j = contains-changed_all changes empty_lifecycle j tt
