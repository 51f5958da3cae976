-- ===== src/Server/Persisting.antt =====
-- publishHandler and sendWithoutSaveHandler (server/internal/server/handlers.go) for a topic that is
-- there: what is written and stored.
use data_loom.Common.{
  ℕ, String, ◌≡◌, refl, ap, sym, subst, ◌∙◌, true, some, List, [], ◌∷◌, ◌++◌, map, arith, done, ok,
  length, set,
}
use data_loom.Schema.{Fields}
use data_loom.Network.{Client, WebSocketMessage, broadcast, Write, WriteJson}
use data_loom.Runtime.{Runtime, forward, spawn}
use data_loom.Storage.{Storage}
use data_loom.Topic
use data_loom.Topic.{Topic}
use data_loom.TopicManager.Publish
use data_loom.TopicManager.Publish.{World, persist_value, report_errors, outbound_message}
use data_loom.TopicManager.Valid.{view, IsValid}
use data_loom.TopicManager.Reads.{check_answer}
use data_loom.TopicManager.Delivery.{Delivered, send_topic_delivers}
use data_loom.Server.{Server}
use data_loom.Server.Handlers
use data_loom.Server.Answers.{Answers, environs, answered, answer_of}
use data_loom.Server.Publishing.{
  complaint_of, checked, launched, cancelled, before, before_world, publish_value_lem, handled_lem,
  send_without_save-eq-publish,
}

-- A stored value: the world with what the storage's AsyncPut left.
stored_lem :
    {S : Type 0} (storage : Storage S) (wj : WriteJson) (ctx : ℕ) (topic : String) (value : Fields)
    (ch : ℕ) (db : S) (rt : Runtime) (w : World S)
    → storage.async_put ctx topic value w.runtime.clock
        (record { db = w.tm.db; runtime = w.runtime })
      ≡ done ch (record { db = db; runtime = rt })
    → persist_value storage wj true ctx topic value w
      ≡ done (some ch) (record w { tm = record w.tm { db = db }; runtime = rt })
unfolding persist_value
stored_lem storage wj ctx topic value ch db rt w e = ground (arith, e)

abbrev pub forwarding : Runtime → ℕ → ℕ → Runtime
forwarding rt from to = record rt { goroutines = rt.goroutines ++ forward from to ∷ [] }

reported_lem :
    (rt : Runtime) (from to : ℕ)
    → report_errors (some from) (some to) rt ≡ done tt (forwarding rt from to)
unfolding report_errors spawn
reported_lem rt from to = refl

-- The writes of the handler before those to the subscribers.
abbrev pub complaint :
    {S : Type 0} → WriteJson → Client → WebSocketMessage → Fields → Server S → List Write
complaint wj c msg value s =
    complaint_of wj c msg (check_answer msg.topic value (view s.world.tm msg.topic)) s.world.net

-- What the handler has done, and what `ws` are: the writes to the subscribers.
pub record Persisted {S : Type 0} (storage : Storage S) (wj : WriteJson) (n : ℕ) (c : Client)
    (msg : WebSocketMessage) (value : Fields) (t : Topic) (db : S) (rt : Runtime) (s s' : Server S)
    (ws : List Write) : Type 0 where
  pub publishes : Handlers.publish_handler storage (environs wj n) c msg s ≡ done tt s'
  pub sends : Handlers.send_without_save_handler storage (environs wj n) c msg s ≡ done tt s'
  pub to_subscribers : map (λ w. w.client) ws ≡ Topic.list_subscribers t
  pub same_message :
      map (λ w. w.message) ws
      ≡ map (λ x. broadcast (outbound_message msg value)) (Topic.list_subscribers t)
  pub net :
      s'.world.net
      ≡ ((s.world.net ++ complaint wj c msg value s) ++ ws)
        ++ answer_of wj c msg (ok tt) ((s.world.net ++ complaint wj c msg value s) ++ ws)
  pub db_after : s'.world.tm.db ≡ db
  pub runtime_after :
      s'.world.runtime
      ≡ record rt { contexts = set rt.contexts (length s.world.runtime.contexts) true }
  pub sees : (x : String) → view s'.world.tm x ≡ view s.world.tm x
  pub valid : IsValid s'.world.tm
  pub keeps_hub : s'.hub ≡ s.hub

module _ {S : Type 0} (storage : Storage S) (wj : WriteJson) (n : ℕ) (quiet : Answers wj)
    (c : Client) (msg : WebSocketMessage) (s : Server S) (v : IsValid s.world.tm) (value : Fields)
    (parsed : msg.parsed_data ≡ some value) (t : Topic) (seen : view s.world.tm msg.topic ≡ some t)
    (ch : ℕ) (db : S) (rt : Runtime)
    (stored : storage.async_put
        (length s.world.runtime.contexts)
        msg.topic
        value
        s.world.runtime.clock
        (record { db = s.world.tm.db; runtime = launched storage wj n quiet c msg s value })
      ≡ done ch (record { db = db; runtime = rt })) where
  abbrev start : World S
  start = before_world storage wj n quiet c msg s v value parsed

  -- The check before the publish has left the storage alone.
  still_stored :
      storage.async_put
        (length s.world.runtime.contexts)
        msg.topic
        value
        start.runtime.clock
        (record { db = start.tm.db; runtime = start.runtime })
      ≡ done ch (record { db = db; runtime = rt })
  still_stored =
      subst
        (λ d.
          storage.async_put (length s.world.runtime.contexts) msg.topic value start.runtime.clock
            (record { db = d; runtime = start.runtime })
          ≡ done ch (record { db = db; runtime = rt }))
        (sym (checked storage wj n quiet c msg s v value).keeps_db) stored

  delivery :
      (w' : World S) × (ws : List Write) × (Publish.publish storage wj
          (length s.world.runtime.contexts)
          msg
          c
          value
          (some (length s.world.runtime.channels))
          start
        ≡ done (ok tt) w')
      × Delivered msg value t db (forwarding rt ch (length s.world.runtime.channels)) start w' ws
  unfolding Publish.publish
  delivery =
      let steady = checked storage wj n quiet c msg s v value in
      send_topic_delivers storage wj (length s.world.runtime.contexts) msg c value true
        (some (length s.world.runtime.channels)) start steady.valid t (steady.sees msg.topic ∙ seen)
        (some ch) db rt (forwarding rt ch (length s.world.runtime.channels))
        (stored_lem storage wj (length s.world.runtime.contexts) msg.topic value ch db rt start
          still_stored)
        (reported_lem rt ch (length s.world.runtime.channels))

  -- A message with data for a topic that is there, at a server whose manager is in order and where
  -- responses are written without an error, where the storage's AsyncPut takes the value: the
  -- handlers of publish and of sendWithoutSave both return in the same state. They have answered
  -- with code 400 if the data does not match the schema, then written the message once to each
  -- subscriber, then acknowledged if that was asked for; the storage is as AsyncPut left it, no
  -- topic has changed, and the context of the write is done. So a mismatch does not stop a publish,
  -- and sendWithoutSave stores the value.
  pub publish_persists :
      (s' : Server S) × (ws : List Write) × Persisted storage wj n c msg value t db
        (forwarding rt ch (length s.world.runtime.channels))
        s
        s'
        ws
  publish_persists =
      let (w', ws, e, d) = delivery in
      let t0 = before storage wj n quiet c msg s v value parsed in
      let s' =
        cancelled storage wj n quiet c msg t0 value
          (answered storage wj n quiet c msg (ok tt) (record t0 { world = w' })) in
      let returns : Handlers.publish_handler storage (environs wj n) c msg s ≡ done tt s' =
        handled_lem storage wj n quiet c msg s v value parsed
        ∙ publish_value_lem storage wj n quiet c msg t0 value (ok tt) w' e in
      (
        s',
        ws,
        record {
          publishes = returns;
          sends = send_without_save-eq-publish storage (environs wj n) c msg s ∙ returns;
          to_subscribers = d.to_subscribers;
          same_message = d.same_message;
          net = ap (λ net. net ++ answer_of wj c msg (ok tt) net) d.net;
          db_after = d.db_after;
          runtime_after =
              ap
                (λ (r : Runtime). record r {
                  contexts = set r.contexts (length s.world.runtime.contexts) true;
                })
                d.runtime_after;
          sees = λ x. d.sees x ∙ (checked storage wj n quiet c msg s v value).sees x;
          valid = d.valid;
          keeps_hub = refl;
        },
      )
