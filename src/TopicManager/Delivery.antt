-- ===== src/TopicManager/Delivery.antt =====
-- sendTopic of server/internal/topic/topic_manager.go: who is written to, who is queued as failed,
-- and what is left of the storage and the runtime.
use mathlib.Core.List.{append_assoc, append-nil}
use data_loom.Common.{
  ℕ, ◌≤◌, ◌<◌, String, ◌<>◌, ◌≡◌, refl, ap, sym, subst, ◌∙◌, ◌⊎◌, inl, inr, Bool, true, false,
  Option, none, some, List, [], ◌∷◌, ◌++◌, map, arith, Go, done, Result, ok, err, length,
  length-append, take, take-of_le, take-append_full, length-take-le, ltb, ◌==◌, ==_iff, string_eq,
  if◌then◌else◌, bind_done, Bool-cases,
}
use data_loom.Schema.{Fields}
use data_loom.Network.{Client, WebSocketMessage, broadcast, Write, WriteJson}
use data_loom.Runtime.{Runtime}
use data_loom.Storage.{Storage}
use data_loom.Topic
use data_loom.Topic.{Topic, publish}
use data_loom.Topic.Subscribers.{
  writes_to, failures_of, publish_each_lem, clients-writes_to, messages-writes_to,
}
use data_loom.TopicManager.{TopicManager, failed_capacity, mark_client_failed}
use data_loom.TopicManager.Publish.{
  World, mark_each, send_topic, outbound_message, report_errors, persist_value,
}
use data_loom.TopicManager.Valid.{
  view, IsValid, find_topic_lem, write_heap, on_topic_lem, IsValid-write, IsValid-with_db,
  view-write,
}
use data_loom.TopicManager.Refinement.{Found, Found-cases}
use data_loom.TopicManager.Methods.{reading}

abbrev pub with_failed : {S : Type 0} → TopicManager S → List Client → TopicManager S
with_failed tm cs = record tm { failed_clients = cs }

module _ {S : Type 0} where
  mark_room :
      (c : Client) (tm : TopicManager S)
      → length tm.failed_clients < failed_capacity
      → mark_client_failed c tm ≡ done tt (with_failed tm (tm.failed_clients ++ c ∷ []))
  unfolding mark_client_failed
  mark_room c tm h =
      let e : ltb (length tm.failed_clients) failed_capacity ≡ true = ground arith in rw e

  mark_full :
      (c : Client) (tm : TopicManager S)
      → length tm.failed_clients ≡ failed_capacity
      → mark_client_failed c tm ≡ done tt tm
  unfolding mark_client_failed
  mark_full c tm h =
      let e : ltb (length tm.failed_clients) failed_capacity ≡ false = ground arith in rw e

  -- Queueing clients as failed, from a queue within its capacity, appends as many of them as there
  -- is room for and drops the others, without blocking.
  pub mark_each_lem :
      (cs : List Client) (tm : TopicManager S)
      → length tm.failed_clients ≤ failed_capacity
      → mark_each cs tm ≡ done tt (with_failed tm (take failed_capacity (tm.failed_clients ++ cs)))
  unfolding mark_each
  mark_each_lem [] tm h =
      let e : tm.failed_clients ≡ take failed_capacity (tm.failed_clients ++ []) =
        rw append-nil (sym (take-of_le failed_capacity tm.failed_clients h)) in
      ap (λ x. done tt (with_failed tm x)) e
  mark_each_lem (c ∷ rest) tm h =
      elim (Bool-cases (ltb (length tm.failed_clients) failed_capacity)) [
        | inl room ↦
            let lt : length tm.failed_clients < failed_capacity = ground arith in
            let tm1 = with_failed tm (tm.failed_clients ++ c ∷ []) in
            bind_done (mark_client_failed c) (λ _. mark_each rest) tm tm1 tt (mark_room c tm lt)
            ∙ mark_each_lem rest tm1 (omega (arith, length-append tm.failed_clients (c ∷ []), lt))
            ∙ ap (λ x. done tt (with_failed tm (take failed_capacity x)))
                (append_assoc tm.failed_clients (c ∷ []) rest)
        | inr full ↦
            let eq : length tm.failed_clients ≡ failed_capacity = ground arith in
            bind_done (mark_client_failed c) (λ _. mark_each rest) tm tm tt (mark_full c tm eq)
            ∙ mark_each_lem rest tm h
            ∙ ap (λ x. done tt (with_failed tm x))
                (take-append_full failed_capacity tm.failed_clients rest eq
                  ∙ sym (take-append_full failed_capacity tm.failed_clients (c ∷ rest) eq))
      ]

  with_failed-IsValid :
      (tm : TopicManager S) (cs : List Client)
      → IsValid tm
      → IsValid (with_failed tm (take failed_capacity cs))
  with_failed-IsValid tm cs v = record {
    free = v.free;
    resolves = v.resolves;
    distinct = v.distinct;
    bounded = length-take-le failed_capacity cs;
  }

-- What the call has done: each subscriber was written the message once, in one order; the writes
-- are the only ones; those that failed with a closed connection are queued as far as there is room;
-- the storage and the runtime are as the calls on them left them; nothing else has changed.
pub record Delivered {S : Type 0} (msg : WebSocketMessage) (value : Fields) (t : Topic) (db : S)
    (rt : Runtime) (w w' : World S) (ws : List Write) : Type 0 where
  pub to_subscribers : map (λ x. x.client) ws ≡ Topic.list_subscribers t
  pub same_message :
      map (λ x. x.message) ws
      ≡ map (λ c. broadcast (outbound_message msg value)) (Topic.list_subscribers t)
  pub net : w'.net ≡ w.net ++ ws
  pub failed_queued :
      w'.tm.failed_clients ≡ take failed_capacity (w.tm.failed_clients ++ failures_of ws)
  pub db_after : w'.tm.db ≡ db
  pub runtime_after : w'.runtime ≡ rt
  pub sees : (x : String) → view w'.tm x ≡ view w.tm x
  pub valid : IsValid w'.tm

module _ {S : Type 0} (storage : Storage S) (write_json : WriteJson) (ctx : ℕ)
    (msg : WebSocketMessage) (sender : Client) (value : Fields) (persist : Bool) (err_ch : Option ℕ)
    (w : World S) (v : IsValid w.tm) where
  abbrev sends : Go (World S) (Result (Unit {0}))
  sends = send_topic storage write_json ctx msg sender value persist err_ch

  -- From a manager in order without the topic, sendTopic returns an error, and stores, writes and
  -- reports nothing.
  pub send_topic_missing :
      view w.tm msg.topic ≡ none
      → sends w ≡ done (err ("publish failed. Topic doesn't exist. Topic: " <> msg.topic)) w
  unfolding send_topic
  send_topic_missing unseen = elim (Found-cases w.tm msg.topic v) [
    | inl (e, _) ↦ ground (arith, find_topic_lem msg.topic w.tm v.free)
    | inr (p, t, h) ↦ absurd (ground (arith, unseen, h.seen))
  ]

  module _ (t : Topic) (seen : view w.tm msg.topic ≡ some t) (db_ch : Option ℕ) (db : S)
      (rt1 rt2 : Runtime)
      (stored : persist_value storage write_json persist ctx msg.topic value w
        ≡ done db_ch (record w { tm = record w.tm { db = db }; runtime = rt1 }))
      (reported : report_errors db_ch err_ch rt1 ≡ done tt rt2) where
    abbrev writes : List Write
    writes = writes_to write_json (Topic.list_subscribers t) (outbound_message msg value) w.net

    abbrev sent : ℕ → World S
    sent p = record {
      tm =
          with_failed (write_heap p t (record w.tm { db = db }))
            (take failed_capacity (w.tm.failed_clients ++ failures_of writes));
      net = w.net ++ writes;
      runtime = rt2;
    }

    sends_lem : (p : ℕ) → Found w.tm msg.topic p t → sends w ≡ done (ok tt) (sent p)
    unfolding send_topic publish
    sends_lem p h = ground (
      arith,
      find_topic_lem msg.topic w.tm v.free,
      h.entry,
      stored,
      on_topic_lem p (reading (λ x. x)) (record w.tm { db = db }) t h.at,
      publish_each_lem write_json (Topic.list_subscribers t) (outbound_message msg value) w.net,
      mark_each_lem (failures_of writes) (write_heap p t (record w.tm { db = db })) v.bounded,
      reported,
    )

    view-sent : (p : ℕ) → Found w.tm msg.topic p t → (x : String) → view (sent p).tm x ≡ view w.tm x
    unfolding view
    view-sent p h x =
        view-write w.tm v msg.topic p t t h.entry h.at refl x ∙ same (Bool-cases (msg.topic == x))
      where
        same :
            ((msg.topic == x) ≡ true) ⊎ ((msg.topic == x) ≡ false)
            → (if msg.topic == x then some t else view w.tm x) ≡ view w.tm x
        same (inl e) = rw (e, ← (==_iff msg.topic x).0 e) (sym h.seen)
        same (inr e) = rw e

    -- From a manager in order that has the topic, where the storage takes the value and the error
    -- report goes through, sendTopic returns without an error. It has written the outbound message
    -- once to each subscriber and to nobody else; those whose connection was closed are queued as
    -- failed, as far as the channel has room; the storage and the runtime are as the calls on them
    -- left them; the topics are as before and the manager is in order.
    pub send_topic_delivers :
        (w' : World S) × (ws : List Write) × (sends w ≡ done (ok tt) w')
        × Delivered msg value t db rt2 w w' ws
    send_topic_delivers = elim (Found-cases w.tm msg.topic v) [
      | inl (e, unseen) ↦ absurd (ground (arith, unseen, seen))
      | inr (p, u, h) ↦
          let same : u ≡ t = ground (arith, seen, h.seen) in
          let h' = subst (Found w.tm msg.topic p) same h in
          (
            sent p,
            writes,
            sends_lem p h',
            record {
              to_subscribers =
                  clients-writes_to write_json (Topic.list_subscribers t)
                    (outbound_message msg value) w.net;
              same_message =
                  messages-writes_to write_json (Topic.list_subscribers t)
                    (outbound_message msg value) w.net;
              net = refl;
              failed_queued = refl;
              db_after = refl;
              runtime_after = refl;
              sees = view-sent p h';
              valid = with_failed-IsValid _ _ (
                  IsValid-with_db _ db
                    (IsValid-write w.tm v msg.topic p t t h'.entry h'.at refl h'.valid));
            },
          )
    ]
