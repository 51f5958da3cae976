-- ===== src/TopicManager/Publish.antt =====
-- `sendTopic`, `Publish` and `SendWithoutSave` of server/internal/topic/topic_manager.go, over the
-- manager, the writes to clients and the runtime.
use data_loom.Common.{
  ℕ, String, ◌<>◌, Bool, true, false, Option, none, some, List, [], ◌∷◌, Go, done, Result, ok, err,
  pure, gets, zoom, ◌>>=◌, ◌>>◌,
}
use data_loom.Schema.{Fields, obj}
use data_loom.Network.{Client, WebSocketMessage, encoded, Net, WriteJson}
use data_loom.Runtime.{Runtime, close, spawn, forward}
use data_loom.Storage.{Storage, Stored}
use data_loom.Topic
use data_loom.Topic.{Topic}
use data_loom.TopicManager.{TopicManager, on_topic, find_topic, mark_client_failed}
use data_loom.TopicManager.Methods.{reading}

pub record World (S : Type 0) : Type 0 where
  pub tm : TopicManager S
  pub net : Net
  pub runtime : Runtime

-- A message to subscribers has no sender and no acknowledgement. A decoded document can always be
-- marshalled, so that the error of json.Marshal does not occur.
unfoldable pub outbound_message : WebSocketMessage → Fields → WebSocketMessage
outbound_message msg value = record {
  message_id = msg.message_id;
  sender_id = "";
  action = msg.action;
  topic = msg.topic;
  raw_data = some (encoded (obj value));
  require_ack = false;
  parsed_data = none;
}

-- Who tells the handler how the write went: a goroutine, or nobody, and then the channel is closed.
unfoldable pub report_errors : Option ℕ → Option ℕ → Go Runtime (Unit {0})
report_errors (some db_err_chan) (some err_ch) = spawn (forward db_err_chan err_ch)
report_errors none (some err_ch) = close err_ch
report_errors _ none = pure tt

module _ {S : Type 0} where
  abbrev pub on_tm : {A : Type 0} → Go (TopicManager S) A → Go (World S) A
  on_tm = zoom (λ w. w.tm) (λ tm w. record w { tm = tm })

  abbrev pub on_runtime : {A : Type 0} → Go Runtime A → Go (World S) A
  on_runtime = zoom (λ w. w.runtime) (λ r w. record w { runtime = r })

  -- The storage sees its own state and the runtime.
  abbrev pub on_stored : {A : Type 0} → Go (Stored S) A → Go (World S) A
  on_stored =
      zoom (λ w. record { db = w.tm.db; runtime = w.runtime })
        (λ s w. record w { tm = record w.tm { db = s.db }; runtime = s.runtime })

  unfoldable pub mark_each : List Client → Go (TopicManager S) (Unit {0})
  mark_each [] = pure tt
  mark_each (c ∷ rest) = do mark_client_failed c; mark_each rest

  module _ (storage : Storage S) (write_json : WriteJson) where
    unfoldable pub persist_value : Bool → ℕ → String → Fields → Go (World S) (Option ℕ)
    persist_value true ctx topic value = do
      time ← on_runtime (gets (λ r. r.clock))
      ch ← on_stored (storage.async_put ctx topic value time)
      pure (some ch)
    persist_value false ctx topic value = pure none

    abbrev publish_on : Topic → Client → WebSocketMessage → Go (World S) (List Client)
    publish_on t sender msg w =
        let (failures, net) = Topic.publish write_json t sender msg w.net in
        done failures (record w { net = net })

    unfoldable pub send_topic :
        ℕ → WebSocketMessage → Client → Fields → Bool → Option ℕ → Go (World S) (Result (Unit {0}))
    unfolding persist_value
    send_topic ctx msg sender value persist err_ch = do
      found ← on_tm (find_topic msg.topic)
      elim found [
        | none ↦ pure (err ("publish failed. Topic doesn't exist. Topic: " <> msg.topic))
        | some p ↦ (do
          db_err_chan ← persist_value persist ctx msg.topic value
          t ← on_tm (on_topic p (reading (λ t. t)))
          failures ← publish_on t sender (outbound_message msg value)
          on_tm (mark_each failures)
          on_runtime (report_errors db_err_chan err_ch)
          pure (ok tt))
      ]

    unfoldable pub publish :
        ℕ → WebSocketMessage → Client → Fields → Option ℕ → Go (World S) (Result (Unit {0}))
    unfolding send_topic
    publish ctx msg sender value err_ch = send_topic ctx msg sender value true err_ch

    unfoldable pub send_without_save :
        ℕ → WebSocketMessage → Client → Fields → Option ℕ → Go (World S) (Result (Unit {0}))
    unfolding send_topic
    send_without_save ctx msg sender value err_ch = send_topic ctx msg sender value false err_ch
