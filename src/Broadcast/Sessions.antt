-- ===== src/Broadcast/Sessions.antt =====
-- `websocket_endpoint` of backend/app/ws/websocket.py: what a client's session does to the manager,
-- among the sessions of other clients and the broadcasts.
pub mod Open
use solprobe.Prelude.{
  ℕ, String, Bool, true, false, Option, none, some, List, [], ◌∷◌, if◌then◌else◌, ◌==◌, nat_eq,
}
use solprobe.Models.Alerts.{Alert}
use solprobe.Models.Metrics.{NodeStatus}
use solprobe.Models.Diagnoses.{DiagnosisResult}
use solprobe.Auth.{Access, granted, unavailable, unauthorized, crashed}
use solprobe.Broadcast.{
  ClientFilter, Connection, connect, disconnect, set_filter, broadcast_alert, broadcast_diagnosis,
  broadcast_metric_summary,
}

-- What happens to the manager: a socket that was let in arrives, its client sends a text, or its
-- session ends; and the three broadcasts, each with what becomes of its sends.
pub data Event (F : Type 0) : Type 0 where
  arrives : ℕ → Event F
  tells : ℕ → Option ClientFilter → Event F
  leaves : ℕ → Event F
  sends_alert : (Connection → Bool) → Alert F → Event F
  sends_diagnosis : (Connection → Bool) → DiagnosisResult F → Event F
  sends_summary : (Connection → String → Bool) → List (NodeStatus F) → Event F

-- What `receive_text` gives: a text, or one of its exceptions. `none` is a text that is no filter.
pub data Received : Type 0 where
  message : Option ClientFilter → Received
  disconnected runtime_error other_error : Received

module _ {F : Type 0} where
  -- `while True` with its `finally`; the end of the list is a client that is waited for.
  unfoldable pub listen : ℕ → List Received → List (Event F)
  listen ws [] = []
  listen ws (message filt ∷ rest) = tells ws filt ∷ listen ws rest
  listen ws (disconnected ∷ rest) = leaves ws ∷ []
  listen ws (runtime_error ∷ rest) = leaves ws ∷ []
  listen ws (other_error ∷ rest) = leaves ws ∷ []

  -- A socket that is refused raises before the `try`.
  unfoldable pub websocket_endpoint : ℕ → Access → List Received → List (Event F)
  unfolding listen
  websocket_endpoint ws granted received = arrives ws ∷ listen ws received
  websocket_endpoint ws unavailable received = []
  websocket_endpoint ws unauthorized received = []
  websocket_endpoint ws crashed received = []

  unfoldable pub happen : Event F → List Connection → List Connection
  unfolding connect set_filter disconnect broadcast_alert broadcast_diagnosis
      broadcast_metric_summary
  happen (arrives ws) conns = connect conns ws
  happen (tells ws filt) conns = set_filter ws filt conns
  happen (leaves ws) conns = disconnect ws conns
  happen (sends_alert delivers a) conns = (broadcast_alert delivers a conns).1
  happen (sends_diagnosis delivers d) conns = (broadcast_diagnosis delivers d conns).1
  happen (sends_summary delivers statuses) conns =
      (broadcast_metric_summary delivers statuses conns).1

  unfoldable pub serve : List (Event F) → List Connection → List Connection
  unfolding happen
  serve [] conns = conns
  serve (e ∷ events) conns = serve events (happen e conns)

  abbrev pub is_about : ℕ → Event F → Bool
  is_about ws (arrives w) = w == ws
  is_about ws (tells w filt) = w == ws
  is_about ws (leaves w) = w == ws
  is_about ws (sends_alert delivers a) = false
  is_about ws (sends_diagnosis delivers d) = false
  is_about ws (sends_summary delivers statuses) = false

  -- The events of one socket, in their order.
  unfoldable pub own : ℕ → List (Event F) → List (Event F)
  own ws [] = []
  own ws (e ∷ events) = if is_about ws e then e ∷ own ws events else own ws events
