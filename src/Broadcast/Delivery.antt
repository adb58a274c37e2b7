-- ===== src/Broadcast/Delivery.antt =====
-- Who gets a broadcast, and who stays connected after it.
use solprobe.Prelude.{
  ℕ, ◌≡◌, refl, ap, ◌∙◌, Bool, true, false, not, ◌&&◌, some, List, [], ◌∷◌, filter_by, arith, ◌==◌,
  nat_eq, contains, if◌then◌else◌, map, Bool-cases, inl, inr,
}
use solprobe.Prelude.Dict.Order.{Distinct}
use solprobe.Models.Alerts.{Alert}
use solprobe.Broadcast.{
  Connection, is_readable, matches_filter, disconnect, remove_all, send_all, all_readable,
  broadcast, broadcast_alert,
}

abbrev pub sockets : List Connection → List ℕ
sockets = map (λ (c : Connection). c.ws)

-- Removing connections that the first one is not among keeps the first one.
remove_all-other :
    (stale : List Connection) (c : Connection) (conns : List Connection)
    → contains (sockets stale) c.ws ≡ false
    → remove_all stale (c ∷ conns) ≡ c ∷ remove_all stale conns
unfolding remove_all disconnect
remove_all-other [] c conns h = refl
remove_all-other (x ∷ stale) c conns h =
    let apart : c.ws == x.ws ≡ false = ground arith in
    rw apart (remove_all-other stale c (disconnect x.ws conns) (ground arith))

contains-filter_by :
    (p : Connection → Bool) (conns : List Connection) (k : ℕ)
    → contains (sockets conns) k ≡ false
    → contains (sockets (filter_by p conns)) k ≡ false
contains-filter_by p [] k h = refl
contains-filter_by p (c ∷ conns) k h = ground (arith, contains-filter_by p conns k)

-- The connections that the loop comes to: those before the first filter that cannot be read.
unfoldable pub reached : List Connection → List Connection
reached [] = []
reached (c ∷ conns) = if is_readable c.filt then c ∷ reached conns else []

reached-all_readable : (conns : List Connection) → all_readable conns ≡ true → reached conns ≡ conns
unfolding reached
reached-all_readable [] h = refl
reached-all_readable (c ∷ conns) h = ground (arith, reached-all_readable conns)

-- The loop gives the payload to those who want it and can be reached, and those who want it and
-- cannot be reached are stale.
send_all_lem :
    (wants delivers : Connection → Bool) (conns : List Connection)
    → (send_all wants delivers conns).1
      ≡ filter_by (λ c. wants c && not (delivers c)) (reached conns)
unfolding send_all reached
send_all_lem wants delivers [] = refl
send_all_lem wants delivers (c ∷ conns) = ground (arith, send_all_lem wants delivers conns)

sent_lem :
    (wants delivers : Connection → Bool) (conns : List Connection)
    → (send_all wants delivers conns).0 ≡ filter_by (λ c. wants c && delivers c) (reached conns)
unfolding send_all reached
sent_lem wants delivers [] = refl
sent_lem wants delivers (c ∷ conns) = ground (arith, sent_lem wants delivers conns)

remove_all-first :
    (stale : List Connection) (c : Connection) (conns : List Connection)
    → remove_all (c ∷ stale) (c ∷ conns) ≡ remove_all stale conns
unfolding remove_all disconnect
remove_all-first stale c conns = let itself : c.ws == c.ws ≡ true = ground arith in rw itself refl

remove_all-filter_by :
    (p : Connection → Bool) (conns : List Connection)
    → Distinct (sockets conns)
    → remove_all (filter_by p conns) conns ≡ filter_by (λ c. not (p c)) conns
unfolding remove_all
remove_all-filter_by p [] d = refl
remove_all-filter_by p (c ∷ conns) d = elim (Bool-cases (p c)) [
  | inl gone ↦
      rw gone (remove_all-first (filter_by p conns) c conns ∙ remove_all-filter_by p conns d.1)
  | inr stays ↦ rw stays (
      remove_all-other (filter_by p conns) c conns (contains-filter_by p conns c.ws d.0)
      ∙ ap (λ l. c ∷ l) (remove_all-filter_by p conns d.1))
]

-- A broadcast alert goes, in order, to the connections before the first filter that cannot be read
-- whose filter it passes and whose send goes through, and to no other. If all filters can be read,
-- those whose filter it passes and whose send fails are dropped, and all others stay connected; else
-- all stay, with the broken filter among them. The sockets of the connections are distinct.
pub broadcast_alert_lem :
    {F : Type 0} (delivers : Connection → Bool) (a : Alert F) (conns : List Connection)
    → Distinct (sockets conns)
    → ((broadcast_alert delivers a conns).0
        ≡ filter_by
            (λ c. matches_filter c a.node_id (some a.severity) && delivers c)
            (reached conns))
      × ((broadcast_alert delivers a conns).1 ≡ (
          if all_readable conns
          then filter_by
              (λ c. not (matches_filter c a.node_id (some a.severity) && not (delivers c)))
              conns
          else conns))
unfolding broadcast_alert broadcast
broadcast_alert_lem delivers a conns d =
    let wants : Connection → Bool = λ c. matches_filter c a.node_id (some a.severity) in
    (
      sent_lem wants delivers conns,
      elim (Bool-cases (all_readable conns)) [
        | inl fine ↦ rw fine (
            ap (λ stale. remove_all stale conns) (send_all_lem wants delivers conns)
            ∙ ap (λ l. remove_all (filter_by (λ c. wants c && not (delivers c)) l) conns)
                (reached-all_readable conns fine)
            ∙ remove_all-filter_by (λ c. wants c && not (delivers c)) conns d)
        | inr broken ↦ rw broken refl
      ],
    )
