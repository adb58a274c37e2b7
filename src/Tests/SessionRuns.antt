-- ===== src/Tests/SessionRuns.antt =====
-- Sessions of two clients.
use solprobe.Prelude.{ℕ, ◌≤◌, refl, true, false, none, some, List, Option, [], ◌∷◌, string_eq}
use solprobe.Auth.{granted}
use solprobe.Broadcast.{ClientFilter, broadcast_alert}
use solprobe.Broadcast.Sessions.{
  Event, arrives, tells, leaves, sends_alert, message, disconnected, websocket_endpoint, serve, own,
}
use solprobe.Broadcast.Sessions.Open.{count, allowed, count-broadcast_alert-serve}
use solprobe.Broadcast.{filter_of}
use solprobe.Models.Json.{text, array, object, cons, nil, member, end}
use solprobe.Tests.Data.{floats}
use solprobe.Tests.AgentRuns.{spike}

-- {"node_ids": ["n1"]}
abbrev first_node : Option ClientFilter
first_node =
    filter_of floats (λ s t. false)
      (some (object (member "node_ids" (array (cons (text "n1") nil)) end)))

-- Client 1 sets a filter, gets an alert that cannot be delivered, and leaves; client 2 stays.
abbrev two_sessions : List (Event ℕ)
two_sessions =
    arrives 1
    ∷ arrives 2
    ∷ tells 1 first_node
    ∷ sends_alert (λ c. false) spike
    ∷ tells 2 none
    ∷ leaves 1
    ∷ []

count-broadcast_alert-serve_example :
    count 1 (broadcast_alert (λ c. true) spike (serve two_sessions [])).0
    ≤ allowed granted (message first_node ∷ disconnected ∷ [])
unfolding own websocket_endpoint
count-broadcast_alert-serve_example =
    count-broadcast_alert-serve 1 granted (message first_node ∷ disconnected ∷ []) two_sessions
      (λ c. true) spike refl
