-- ===== src/Broadcast/Sessions/Open.antt =====
-- Which sockets the manager can hold.
use solprobe.Prelude.{
  ℕ, ◌+◌, ◌-◌, ◌≤◌, ◌≡◌, refl, sym, ap, ◌∙◌, subst, arith, Bool, true, false, false≢true, Option,
  none, some, List, [], ◌∷◌, if◌then◌else◌, ◌==◌, nat_eq, ◌⊎◌, inl, inr, Bool-cases,
}
use solprobe.Models.Alerts.{Alert}
use solprobe.Auth.{Access, granted, unavailable, unauthorized, crashed}
use solprobe.Broadcast.{
  ClientFilter, Connection, connect, disconnect, set_filter, matches_filter, remove_all, send_all,
  all_readable, broadcast, broadcast_alert, broadcast_diagnosis, broadcast_metric_summary,
  summarize_all,
}
use solprobe.Broadcast.Sessions.{
  Event, arrives, tells, leaves, sends_alert, sends_diagnosis, sends_summary, Received, message,
  disconnected, runtime_error, other_error, listen, websocket_endpoint, happen, serve, is_about,
  own,
}

-- How many connections a socket has.
unfoldable pub count : ℕ → List Connection → ℕ
count ws [] = 0
count ws (c ∷ conns) = (if c.ws == ws then 1 else 0) + count ws conns

count-connect :
    (ws w : ℕ) (conns : List Connection)
    → count ws (connect conns w) ≡ count ws conns + (if w == ws then 1 else 0)
unfolding count connect
count-connect ws w [] = ground arith
count-connect ws w (c ∷ conns) = ground (arith, count-connect ws w conns)

count-set_filter :
    (ws w : ℕ) (filt : Option ClientFilter) (conns : List Connection)
    → count ws (set_filter w filt conns) ≡ count ws conns
unfolding count set_filter
count-set_filter ws w none conns = refl
count-set_filter ws w (some filt) [] = refl
count-set_filter ws w (some filt) (c ∷ conns) =
    ground (arith, count-set_filter ws w (some filt) conns)

count-disconnect :
    (ws w : ℕ) (conns : List Connection) → count ws (disconnect w conns) ≤ count ws conns
unfolding count disconnect
count-disconnect ws w [] = ground arith
count-disconnect ws w (c ∷ conns) = ground (arith, count-disconnect ws w conns)

count-disconnect-own :
    (ws : ℕ) (conns : List Connection) → count ws (disconnect ws conns) ≡ count ws conns - 1
unfolding count disconnect
count-disconnect-own ws [] = refl
count-disconnect-own ws (c ∷ conns) = ground (arith, count-disconnect-own ws conns)

count-remove_all :
    (ws : ℕ) (stale conns : List Connection) → count ws (remove_all stale conns) ≤ count ws conns
unfolding remove_all
count-remove_all ws [] conns = ground arith
count-remove_all ws (c ∷ stale) conns =
    ground
      (arith, count-disconnect ws c.ws conns, count-remove_all ws stale (disconnect c.ws conns))

count-kept :
    (ws : ℕ) (stale conns : List Connection) (fine : Bool)
    → count ws (if fine then remove_all stale conns else conns) ≤ count ws conns
count-kept ws stale conns true = count-remove_all ws stale conns
count-kept ws stale conns false = ground arith

-- Who gets something is connected.
count-send_all :
    (ws : ℕ) (wants delivers : Connection → Bool) (conns : List Connection)
    → count ws (send_all wants delivers conns).0 ≤ count ws conns
unfolding count send_all
count-send_all ws wants delivers [] = ground arith
count-send_all ws wants delivers (c ∷ conns) =
    ground (arith, count-send_all ws wants delivers conns)

-- Whether the session is over.
unfoldable pub is_over : List Received → Bool
is_over [] = false
is_over (message filt ∷ rest) = is_over rest
is_over (disconnected ∷ rest) = true
is_over (runtime_error ∷ rest) = true
is_over (other_error ∷ rest) = true

-- How many connections a client may have: none once its session is over.
abbrev pub allowed : Access → List Received → ℕ
allowed granted received = if is_over received then 0 else 1
allowed unavailable received = 0
allowed unauthorized received = 0
allowed crashed received = 0

module _ {F : Type 0} where
  -- What is not about a socket adds no connection of it.
  count-happen-other :
      (ws : ℕ) (e : Event F) (conns : List Connection)
      → is_about ws e ≡ false
      → count ws (happen e conns) ≤ count ws conns
  unfolding happen broadcast_alert broadcast_diagnosis broadcast_metric_summary broadcast
  count-happen-other ws (arrives w) conns h = ground (arith, count-connect ws w conns)
  count-happen-other ws (tells w filt) conns h = ground (arith, count-set_filter ws w filt conns)
  count-happen-other ws (leaves w) conns h = count-disconnect ws w conns
  count-happen-other ws (sends_alert delivers a) conns h =
      count-kept ws (send_all (λ c. matches_filter c a.node_id (some a.severity)) delivers conns).1
        conns (all_readable conns)
  count-happen-other ws (sends_diagnosis delivers d) conns h =
      count-kept ws (send_all (λ c. matches_filter c d.node_id none) delivers conns).1 conns
        (all_readable conns)
  count-happen-other ws (sends_summary delivers []) conns h = ground arith
  count-happen-other ws (sends_summary delivers (s ∷ statuses)) conns h =
      count-kept ws (summarize_all delivers (s ∷ statuses) conns).1 conns (all_readable conns)

  abbrev head_or : Event F → List (Event F) → Event F
  head_or e [] = e
  head_or e (x ∷ xs) = x

  abbrev tail_of : List (Event F) → List (Event F)
  tail_of [] = []
  tail_of (x ∷ xs) = xs

  abbrev is_empty : List (Event F) → Bool
  is_empty [] = true
  is_empty (x ∷ xs) = false

  own-other :
      (ws : ℕ) (e : Event F) (events : List (Event F))
      → is_about ws e ≡ false
      → own ws (e ∷ events) ≡ own ws events
  unfolding own
  own-other ws e events h = rw (own, h) refl

  own-same :
      (ws : ℕ) (e : Event F) (events : List (Event F))
      → is_about ws e ≡ true
      → own ws (e ∷ events) ≡ e ∷ own ws events
  unfolding own
  own-same ws e events h = rw (own, h) refl

  -- A client none of whose events is left gets no new connection.
  count-serve-none :
      (ws : ℕ) (events : List (Event F)) (conns : List Connection)
      → own ws events ≡ []
      → count ws (serve events conns) ≤ count ws conns
  unfolding serve
  count-serve-none ws [] conns h = ground arith
  count-serve-none ws (e ∷ events) conns h = elim (Bool-cases (is_about ws e)) [
    | inl same ↦ absurd (false≢true (ap is_empty (sym (own-same ws e events same) ∙ h)))
    | inr other ↦
        let step = count-happen-other ws e conns other in
        let rest =
          count-serve-none ws events (happen e conns) (sym (own-other ws e events other) ∙ h) in
        ground (arith, step, rest)
  ]

  -- One event of a listening client, and what remains.
  abbrev Listening : ℕ → List Received → List (Event F) → Event F → Type 0
  Listening ws received events e =
      ((filt : Option ClientFilter) × (rest : List Received) × (e ≡ tells ws filt)
        × (events ≡ listen ws rest)
        × (is_over rest ≡ is_over received))
      ⊎ ((e ≡ leaves ws) × (events ≡ []) × (is_over received ≡ true))

  listen-Listening :
      (ws : ℕ) (received : List Received) (e : Event F) (events : List (Event F))
      → e ∷ events ≡ listen ws received
      → Listening ws received events e
  unfolding listen is_over
  listen-Listening ws [] e events h = absurd (false≢true (ap is_empty h))
  listen-Listening ws (message filt ∷ rest) e events h =
      inl (filt, rest, ap (head_or e) h, ap tail_of h, refl)
  listen-Listening ws (disconnected ∷ rest) e events h = inr (ap (head_or e) h, ap tail_of h, refl)
  listen-Listening ws (runtime_error ∷ rest) e events h = inr (ap (head_or e) h, ap tail_of h, refl)
  listen-Listening ws (other_error ∷ rest) e events h = inr (ap (head_or e) h, ap tail_of h, refl)

  listen-none :
      (ws : ℕ) (received : List Received)
      → own {F = F} ws [] ≡ listen ws received
      → is_over received ≡ false
  unfolding own listen is_over
  listen-none ws [] h = refl
  listen-none ws (message filt ∷ rest) h = absurd (false≢true (ap is_empty (sym h)))
  listen-none ws (disconnected ∷ rest) h = absurd (false≢true (ap is_empty (sym h)))
  listen-none ws (runtime_error ∷ rest) h = absurd (false≢true (ap is_empty (sym h)))
  listen-none ws (other_error ∷ rest) h = absurd (false≢true (ap is_empty (sym h)))

  count-tells :
      (ws : ℕ) (filt : Option ClientFilter) (e : Event F) (conns : List Connection)
      → e ≡ tells ws filt
      → count ws (happen e conns) ≡ count ws conns
  unfolding happen
  count-tells ws filt e conns told =
      ap (λ x. count ws (happen x conns)) told ∙ count-set_filter ws ws filt conns

  count-leaves :
      (ws : ℕ) (e : Event F) (conns : List Connection)
      → e ≡ leaves ws
      → count ws (happen e conns) ≡ count ws conns - 1
  unfolding happen
  count-leaves ws e conns left =
      ap (λ x. count ws (happen x conns)) left ∙ count-disconnect-own ws conns

  count-arrives :
      (ws : ℕ) (e : Event F) (conns : List Connection)
      → e ≡ arrives ws
      → count ws (happen e conns) ≡ count ws conns + 1
  unfolding happen
  count-arrives ws e conns came =
      let here = count-connect ws ws conns in
      ap (λ x. count ws (happen x conns)) came ∙ ground (arith, here)

  count-serve-listen :
      (ws : ℕ) (received : List Received) (events : List (Event F)) (conns : List Connection)
      → own ws events ≡ listen ws received
      → count ws conns ≤ 1
      → count ws (serve events conns) ≤ allowed granted received
  unfolding serve
  count-serve-listen ws received [] conns h few =
      let open_still = listen-none ws received h in ground (arith, open_still)
  count-serve-listen ws received (e ∷ events) conns h few = elim (Bool-cases (is_about ws e)) [
    | inl same ↦
        elim (listen-Listening ws received e (own ws events)
          (sym (own-same ws e events same) ∙ h)) [
            | inl (filt, rest, told, remaining, equally) ↦
                let step = count-tells ws filt e conns told in
                let then_on =
                  count-serve-listen ws rest events (happen e conns) remaining
                    (ground (arith, step)) in
                subst (λ over. count ws (serve events (happen e conns)) ≤ (if over then 0 else 1))
                  equally then_on
            | inr (left, remaining, over) ↦
                let step = count-leaves ws e conns left in
                let then_on = count-serve-none ws events (happen e conns) remaining in
                rw over (ground (arith, step, then_on))
          ]
    | inr other ↦
        let step = count-happen-other ws e conns other in
        count-serve-listen ws received events (happen e conns)
          (sym (own-other ws e events other) ∙ h) (ground (arith, step))
  ]

  count-serve-granted :
      (ws : ℕ) (received : List Received) (events : List (Event F)) (conns : List Connection)
      → own ws events ≡ websocket_endpoint ws granted received
      → count ws conns ≡ 0
      → count ws (serve events conns) ≤ allowed granted received
  unfolding serve websocket_endpoint
  count-serve-granted ws received [] conns h few = ground (arith, few)
  count-serve-granted ws received (e ∷ events) conns h few = elim (Bool-cases (is_about ws e)) [
    | inl same ↦
        let first = sym (own-same ws e events same) ∙ h in
        let step = count-arrives ws e conns (ap (head_or e) first) in
        count-serve-listen ws received events (happen e conns) (ap tail_of first)
          (ground (arith, step, few))
    | inr other ↦
        let step = count-happen-other ws e conns other in
        count-serve-granted ws received events (happen e conns)
          (sym (own-other ws e events other) ∙ h) (ground (arith, step, few))
  ]

  count-serve :
      (ws : ℕ) (access : Access) (received : List Received) (events : List (Event F))
      → own ws events ≡ websocket_endpoint ws access received
      → count ws (serve events []) ≤ allowed access received
  unfolding count websocket_endpoint
  count-serve ws granted received events h = count-serve-granted ws received events [] h refl
  count-serve ws unavailable received events h = count-serve-none ws events [] h
  count-serve ws unauthorized received events h = count-serve-none ws events [] h
  count-serve ws crashed received events h = count-serve-none ws events [] h

  -- Take any run in which the events of one client are those of its session, in their order, with
  -- the events of other clients and broadcasts anywhere between them. A broadcast of an alert after
  -- it is sent to the client at most once, and not at all if the client was refused or its session
  -- is over.
  pub count-broadcast_alert-serve :
      (ws : ℕ) (access : Access) (received : List Received) (events : List (Event F))
      (delivers : Connection → Bool) (a : Alert F)
      → own ws events ≡ websocket_endpoint ws access received
      → count ws (broadcast_alert delivers a (serve events [])).0 ≤ allowed access received
  unfolding broadcast_alert broadcast
  count-broadcast_alert-serve ws access received events delivers a h =
      let held = count-serve ws access received events h in
      let sent =
        count-send_all ws (λ c. matches_filter c a.node_id (some a.severity)) delivers
          (serve events []) in
      ground (arith, held, sent)
