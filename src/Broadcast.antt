-- ===== src/Broadcast.antt =====
-- `ConnectionManager` of backend/app/ws/websocket.py. A connection object is the identity of its
-- socket with its filter; whether a send succeeds is a parameter.
pub mod Delivery
pub mod Sessions
use solprobe.Prelude.{
  ℕ, String, Bool, true, false, not, Option, none, some, List, [], ◌∷◌, ◌++◌, ◌&&◌, length,
  if◌then◌else◌, ◌==◌, string_eq, nat_eq, contains,
}
use solprobe.Prelude.Int.{pos}
use solprobe.Prelude.Floats.{Floats}
use solprobe.Prelude.Dict.{Dict, get, keys}
use solprobe.Models.Json.{Json, null, flag, number, text, array, object, elements, members}
use solprobe.Models.Alerts.{Alert}
use solprobe.Models.Metrics.{NodeStatus}
use solprobe.Models.Diagnoses.{DiagnosisResult}

-- The `node_ids` that a client gave: a falsy value, a value that `in` can be asked of, or one, such as
-- a number, that it cannot.
pub data NodeIds : Type 0 where
  everyone : NodeIds
  only : (String → Bool) → NodeIds
  unreadable : NodeIds

-- The `severity` that a client gave: a falsy value, a text, or a value that equals no text.
pub data Wanted : Type 0 where
  anything : Wanted
  exactly : String → Wanted
  no_text : Wanted

pub record ClientFilter : Type 0 where
  pub node_ids : NodeIds
  pub severity : Wanted

abbrev pub is_readable : ClientFilter → Bool
is_readable filt = elim filt.node_ids [ everyone ↦ true | only test ↦ true | unreadable ↦ false ]

pub record Connection : Type 0 where
  pub ws : ℕ
  pub filt : ClientFilter

abbrev pub no_filter : ClientFilter
no_filter = record { node_ids = everyone; severity = anything }

-- The end of `connect`, once the socket was accepted.
unfoldable pub connect : List Connection → ℕ → List Connection
connect conns ws = conns ++ record { ws = ws; filt = no_filter } ∷ []

-- `self._connections.remove(conn)`, where a connection that is not there is passed over
unfoldable pub disconnect : ℕ → List Connection → List Connection
disconnect ws [] = []
disconnect ws (c ∷ conns) = if c.ws == ws then conns else c ∷ disconnect ws conns

-- The filter of a payload; `none` is one that is no JSON or no object. `occurs_in` is `in` of texts.
module _ (fl : Floats) (occurs_in : String → String → Bool) where
  open fl use {F, eq, literal}

  abbrev is_text : String → Json F → Bool
  is_text s (text t) = t == s
  is_text s _ = false

  abbrev is_among : List (Json F) → String → Bool
  is_among [] s = false
  is_among (x ∷ xs) s = if is_text s x then true else is_among xs s

  abbrev node_ids_of : Option (Json F) → NodeIds
  node_ids_of none = everyone
  node_ids_of (some null) = everyone
  node_ids_of (some (flag b)) = if b then unreadable else everyone
  node_ids_of (some (number x)) = if eq x (literal (pos 0) 1) then everyone else unreadable
  node_ids_of (some (text s)) = if s == "" then everyone else only (λ node_id. occurs_in node_id s)
  node_ids_of (some (array xs)) = elim (elements xs) [
    | [] ↦ everyone
    | y ∷ ys ↦ only (is_among (elements xs))
  ]
  node_ids_of (some (object ms)) = elim (members ms) [
    | [] ↦ everyone
    | m ∷ rest ↦ only (contains (keys (members ms)))
  ]

  abbrev wanted_of : Option (Json F) → Wanted
  wanted_of none = anything
  wanted_of (some null) = anything
  wanted_of (some (flag b)) = if b then no_text else anything
  wanted_of (some (number x)) = if eq x (literal (pos 0) 1) then anything else no_text
  wanted_of (some (text s)) = if s == "" then anything else exactly s
  wanted_of (some (array xs)) = elim (elements xs) [ [] ↦ anything | y ∷ ys ↦ no_text ]
  wanted_of (some (object ms)) = elim (members ms) [ [] ↦ anything | m ∷ rest ↦ no_text ]

  -- `payload` is what `json.loads` returned, if it did not raise.
  unfoldable pub filter_of : Option (Json F) → Option ClientFilter
  unfolding get
  filter_of (some (object ms)) = some (record {
    node_ids = node_ids_of (get "node_ids" (members ms));
    severity = wanted_of (get "severity" (members ms));
  })
  filter_of _ = none

-- `set_filter`, with the filter of the payload
unfoldable pub set_filter : ℕ → Option ClientFilter → List Connection → List Connection
set_filter ws none conns = conns
set_filter ws (some filt) [] = []
set_filter ws (some filt) (c ∷ conns) =
    (if c.ws == ws then record c { filt = filt } else c) ∷ set_filter ws (some filt) conns

abbrev node_passes : NodeIds → String → Bool
node_passes everyone node_id = true
node_passes (only test) node_id = test node_id
node_passes unreadable node_id = false

abbrev severity_passes : Wanted → Option String → Bool
severity_passes anything severity = true
severity_passes (exactly wanted) none = true
severity_passes (exactly wanted) (some severity) =
    if severity == "" then true else wanted == severity
severity_passes no_text none = true
severity_passes no_text (some severity) = severity == ""

-- For a filter that can be read.
unfoldable pub matches_filter : Connection → String → Option String → Bool
matches_filter c node_id severity =
    if node_passes c.filt.node_ids node_id then severity_passes c.filt.severity severity else false

-- `for conn in stale: self._connections.remove(conn)`
unfoldable pub remove_all : List Connection → List Connection → List Connection
unfolding disconnect
remove_all [] conns = conns
remove_all (c ∷ stale) conns = remove_all stale (disconnect c.ws conns)

-- The sending loop over the connections: to whom the payload went, and who is stale. `wants` is the
-- test of the filter, and `delivers` whether the send goes through. The loop ends at a filter that
-- cannot be read, with a `TypeError`.
unfoldable pub send_all :
    (Connection → Bool) → (Connection → Bool) → List Connection → List Connection × List Connection
send_all wants delivers [] = ([], [])
send_all wants delivers (c ∷ conns) =
    let (sent, stale) = send_all wants delivers conns in
    if is_readable c.filt
    then if wants c
      then if delivers c then (c ∷ sent, stale) else (sent, c ∷ stale)
      else (sent, stale)
    else ([], [])

-- Whether that loop ends without an exception.
abbrev pub all_readable : List Connection → Bool
all_readable [] = true
all_readable (c ∷ conns) = is_readable c.filt && all_readable conns

-- A broadcast: who got the payload, and the connections that stay. After an exception nobody is
-- removed.
unfoldable pub broadcast :
    (Connection → Bool) → (Connection → Bool) → List Connection → List Connection × List Connection
unfolding send_all remove_all
broadcast wants delivers conns =
    let (sent, stale) = send_all wants delivers conns in
    (sent, if all_readable conns then remove_all stale conns else conns)

module _ {F : Type 0} (delivers : Connection → Bool) where
  unfoldable pub broadcast_alert : Alert F → List Connection → List Connection × List Connection
  unfolding broadcast matches_filter
  broadcast_alert a = broadcast (λ c. matches_filter c a.node_id (some a.severity)) delivers

  unfoldable pub broadcast_diagnosis :
      DiagnosisResult F → List Connection → List Connection × List Connection
  unfolding broadcast matches_filter
  broadcast_diagnosis d = broadcast (λ c. matches_filter c d.node_id none) delivers

module _ {F : Type 0} (delivers : Connection → String → Bool) where
  -- The summaries that a connection gets, and whether it is stale: its loop ends at the first send
  -- that fails. Whether a send goes through may depend on the node of the summary.
  unfoldable pub send_summaries : Connection → List (NodeStatus F) → List (NodeStatus F) × Bool
  unfolding matches_filter
  send_summaries c [] = ([], false)
  send_summaries c (status ∷ rest) =
      let (sent, stale) = send_summaries c rest in
      if matches_filter c status.node_id none
      then if delivers c status.node_id then (status ∷ sent, stale) else ([], true)
      else (sent, stale)

  -- Each connection with what it got, and the stale ones.
  unfoldable pub summarize_all :
      List (NodeStatus F)
      → List Connection
      → List (Connection × List (NodeStatus F)) × List Connection
  unfolding send_summaries
  summarize_all statuses [] = ([], [])
  summarize_all statuses (c ∷ conns) =
      let (got, stale) = summarize_all statuses conns in
      let (sent, lost) = send_summaries c statuses in
      if is_readable c.filt then ((c, sent) ∷ got, if lost then c ∷ stale else stale) else ([], [])

  unfoldable pub broadcast_metric_summary :
      List (NodeStatus F)
      → List Connection
      → List (Connection × List (NodeStatus F)) × List Connection
  unfolding summarize_all remove_all
  broadcast_metric_summary [] conns = ([], conns)
  broadcast_metric_summary (status ∷ statuses) conns =
      let (got, stale) = summarize_all (status ∷ statuses) conns in
      (got, if all_readable conns then remove_all stale conns else conns)

unfoldable pub active_count : List Connection → ℕ
active_count conns = length conns
