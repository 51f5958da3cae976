-- ===== src/Topic/Subscribers.antt =====
-- Who is subscribed to a topic, and what Publish writes to whom.
use data_loom.Common.{
  ◌≡◌, refl, ap, inl, inr, true, false, List, [], ◌∷◌, ◌++◌, map, arith, ok, err, ◌==◌, ==_iff,
  if◌then◌else◌, Bool-cases, Option-cases,
}
use mathlib.Core.List.{append_assoc, append-nil}
use data_loom.Common.GoMap
use data_loom.Common.GoMap.{GoMap, get-put, get-delete, Distinct}
use data_loom.Network.{
  Client, client_eq, WebSocketMessage, broadcast, Write, Net, WriteJson, send_json, written,
}
use data_loom.Topic.{
  Topic, subscribe, unsubscribe, is_client_subscribed, list_subscribers, failed, not_subscribed,
  publish_each, publish,
}

-- After a topic's Subscribe the client is subscribed, and every other client is subscribed just if
-- it was.
pub is_client_subscribed-subscribe :
    (c d : Client) (t : Topic)
    → is_client_subscribed d (subscribe c t) ≡ (if c == d then true else is_client_subscribed d t)
unfolding is_client_subscribed subscribe
is_client_subscribed-subscribe c d t = rw get-put (ground arith)

-- A topic's Unsubscribe deletes a client for which IsClientSubscribed holds, and otherwise returns
-- an error and changes nothing.
pub unsubscribe_lem :
    (c : Client) (t : Topic)
    → unsubscribe c t ≡ (
        if is_client_subscribed c t
        then (ok tt, record t { subscribers = GoMap.delete c t.subscribers })
        else (err (not_subscribed t c), t))
unfolding is_client_subscribed unsubscribe
unsubscribe_lem c t = elim (Option-cases (GoMap.get c t.subscribers)) [
  | inl e ↦ rw (e, unsubscribe)
  | inr (b, e) ↦ rw (e, unsubscribe)
]

-- After a topic's Unsubscribe, successful or not, the client is not subscribed, and every other
-- client is subscribed just if it was.
pub is_client_subscribed-unsubscribe :
    (c d : Client) (t : Topic)
    → is_client_subscribed d (unsubscribe c t).1
      ≡ (if c == d then false else is_client_subscribed d t)
is_client_subscribed-unsubscribe c d t = elim (Bool-cases (is_client_subscribed c t)) [
  | inl e ↦
      rw (unsubscribe_lem c t, e) (unfold is_client_subscribed in rw get-delete (ground arith))
  | inr e ↦ rw (unsubscribe_lem c t, e) (ground (arith, ==_iff c d))
]

-- The writes of one Publish, one to each of the clients in turn.
abbrev pub writes_to : WriteJson → List Client → WebSocketMessage → Net → List Write
writes_to wj [] msg net = []
writes_to wj (c ∷ rest) msg net =
    written wj c (broadcast msg) net
    ∷ writes_to wj rest msg (net ++ written wj c (broadcast msg) net ∷ [])

-- The clients of the writes that failed because the peer had closed.
abbrev pub failures_of : List Write → List Client
failures_of [] = []
failures_of (w ∷ rest) = if failed w.result then w.client ∷ failures_of rest else failures_of rest

pub publish_each_lem :
    (wj : WriteJson) (cs : List Client) (msg : WebSocketMessage) (net : Net)
    → publish_each wj cs msg net
      ≡ (failures_of (writes_to wj cs msg net), net ++ writes_to wj cs msg net)
unfolding publish_each send_json
publish_each_lem wj [] msg net = rw append-nil
publish_each_lem wj (c ∷ rest) msg net =
    rw (publish_each_lem wj rest msg (net ++ written wj c (broadcast msg) net ∷ []), append_assoc)

pub messages-writes_to :
    (wj : WriteJson) (cs : List Client) (msg : WebSocketMessage) (net : Net)
    → map (λ w. w.message) (writes_to wj cs msg net) ≡ map (λ c. broadcast msg) cs
messages-writes_to wj [] msg net = refl
messages-writes_to wj (c ∷ rest) msg net =
    ap (◌∷◌ (broadcast msg)) (messages-writes_to wj rest msg _)

pub clients-writes_to :
    (wj : WriteJson) (cs : List Client) (msg : WebSocketMessage) (net : Net)
    → map (λ w. w.client) (writes_to wj cs msg net) ≡ cs
clients-writes_to wj [] msg net = refl
clients-writes_to wj (c ∷ rest) msg net = ap (◌∷◌ c) (clients-writes_to wj rest msg _)

-- A topic's Publish writes the message once to each subscriber, in one order and whatever the
-- earlier writes returned, writes nothing else, and returns the clients of the writes that failed
-- with a normal closure or a going-away.
pub publish_writes :
    (wj : WriteJson) (t : Topic) (sender : Client) (msg : WebSocketMessage) (net : Net)
    → (ws : List Write) × (publish wj t sender msg net ≡ (failures_of ws, net ++ ws))
      × (map (λ w. w.client) ws ≡ list_subscribers t)
      × (map (λ w. w.message) ws ≡ map (λ c. broadcast msg) (list_subscribers t))
unfolding publish
publish_writes wj t sender msg net = (
  writes_to wj (list_subscribers t) msg net,
  publish_each_lem wj (list_subscribers t) msg net,
  clients-writes_to wj (list_subscribers t) msg net,
  messages-writes_to wj (list_subscribers t) msg net,
)
