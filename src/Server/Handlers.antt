-- ===== src/Server/Handlers.antt =====
-- server/internal/server/handlers.go: one handler for each action.
use data_loom.Common.{
  ℕ, String, Bool, true, false, Option, none, some, List, [], ◌∷◌, Go, panic, Result, ok, err,
  if◌then◌else◌, pure, ◌>>=◌, ◌>>◌,
}
use data_loom.Schema.{Fields}
use data_loom.Network.{
  Client, WebSocketMessage, json_map, topic_ref, topic_list, TopicResponse, TopicSchemaResponse,
}
use data_loom.Runtime.{make_channel, make_context, cancel, spawn, await}
use data_loom.Storage.{Storage}
use data_loom.Topic
use data_loom.Topic.{TopicSchema}
use data_loom.TopicManager.{TopicManager, on_topic}
use data_loom.TopicManager.Methods
use data_loom.TopicManager.Methods.{reading}
use data_loom.TopicManager.Publish
use data_loom.Server.{
  Server, Environs, on_world, on_manager, on_runtime, deferring, ack_response_success,
  ack_response_success_with_data, ack_response_error, ack_response_bad_request,
}

-- HandlerFunc
abbrev pub HandlerFunc : Type 0 → Type 0
HandlerFunc S = Client → WebSocketMessage → Go (Server S) (Unit {0})

abbrev pub unparsed : String
unparsed = "data payload could not be parsed"

-- A topic whose schema cannot be read is listed with the zero value.
abbrev pub schema_response : Result TopicSchema → TopicSchemaResponse
schema_response (ok s) = record { version = s.version; schema = some s.schema }
schema_response (err e) = record { version = 0; schema = none }

module _ {S : Type 0} where
  -- The loop over the topics.
  unfoldable pub describe_each : List ℕ → Go (TopicManager S) (List TopicResponse)
  describe_each [] = pure []
  describe_each (p ∷ rest) = do
    schema ← on_topic p Topic.get_latest_schema
    name ← on_topic p (reading Topic.name_with_lock)
    others ← describe_each rest
    pure (record { name = name; schema = schema_response schema } ∷ others)

module _ {S : Type 0} (storage : Storage S) (env : Environs) where
  -- The usual end of a handler: the error, or the acknowledgement.
  unfoldable pub acknowledge :
      Client → WebSocketMessage → Result (Unit {0}) → Go (Server S) (Unit {0})
  unfolding ack_response_success ack_response_error
  acknowledge c msg (err e) = ack_response_error env c msg e
  acknowledge c msg (ok _) = ack_response_success env c msg

  unfoldable pub subscribe_handler : HandlerFunc S
  unfolding acknowledge
  subscribe_handler c msg = do
    result ← on_manager (Methods.subscribe msg.topic c)
    acknowledge c msg result

  unfoldable pub unsubscribe_handler : HandlerFunc S
  unfolding acknowledge
  unsubscribe_handler c msg = do
    result ← on_manager (Methods.unsubscribe msg.topic c)
    acknowledge c msg result

  unfoldable pub unsubscribe_all_handler : HandlerFunc S
  unfolding ack_response_success
  unsubscribe_all_handler c msg = do
    on_manager (Methods.unsubscribe_all c)
    ack_response_success env c msg

  -- The bad request is answered, and the handler goes on; without an error there is none to show.
  unfoldable pub complain : Client → WebSocketMessage → Result Bool → Go (Server S) (Unit {0})
  unfolding ack_response_bad_request
  complain c msg (ok true) = pure tt
  complain c msg (ok false) = panic "invalid memory address or nil pointer dereference"
  complain c msg (err e) = ack_response_bad_request env c msg e

  -- The part with the context: the goroutine that waits is started before the value is published.
  unfoldable pub publish_value : Client → WebSocketMessage → Fields → Go (Server S) (Unit {0})
  unfolding acknowledge
  publish_value c msg value = do
    ctx ← on_runtime make_context
    deferring (on_runtime (cancel ctx)) (do
      err_ch ← on_runtime (make_channel 1)
      on_runtime (spawn (await c msg err_ch ctx))
      result ← on_world (Publish.publish storage env.write_json ctx msg c value (some err_ch))
      acknowledge c msg result)

  abbrev pub checked_publish : Client → WebSocketMessage → Option Fields → Go (Server S) (Unit {0})
  checked_publish c msg none = ack_response_bad_request env c msg unparsed
  checked_publish c msg (some value) = do
    is_match ← on_manager (Methods.is_schema_match msg.topic value)
    complain c msg is_match
    publish_value c msg value

  unfoldable pub publish_handler : HandlerFunc S
  unfolding complain publish_value ack_response_bad_request
  publish_handler c msg = checked_publish c msg msg.parsed_data

  -- Line for line what publishHandler does, its call of Publish included.
  unfoldable pub send_without_save_handler : HandlerFunc S
  unfolding complain publish_value ack_response_bad_request
  send_without_save_handler c msg = checked_publish c msg msg.parsed_data

  abbrev pub answer_get :
      Client → WebSocketMessage → Result (Option Fields) → Go (Server S) (Unit {0})
  answer_get c msg (err e) = ack_response_error env c msg e
  answer_get c msg (ok value) = ack_response_success_with_data env c msg (json_map value)

  unfoldable pub get_handler : HandlerFunc S
  unfolding ack_response_error ack_response_success_with_data
  get_handler c msg = do
    ctx ← on_runtime make_context
    deferring (on_runtime (cancel ctx))
        (do result ← on_manager (Methods.get storage ctx msg.topic); answer_get c msg result)

  abbrev pub answer_register : Client → WebSocketMessage → Result ℕ → Go (Server S) (Unit {0})
  answer_register c msg (err e) = ack_response_error env c msg e
  answer_register c msg (ok topic) =
      if msg.require_ack
      then ack_response_success_with_data env c msg (topic_ref topic)
      else pure tt

  abbrev with_data :
      Client
      → WebSocketMessage
      → Option Fields
      → (Fields → Go (Server S) (Unit {0}))
      → Go (Server S) (Unit {0})
  with_data c msg none k = ack_response_bad_request env c msg unparsed
  with_data c msg (some value) k = k value

  unfoldable pub register_topic_handler : HandlerFunc S
  unfolding ack_response_error ack_response_success_with_data ack_response_bad_request
  register_topic_handler c msg = with_data c msg msg.parsed_data λ value. do
    result ← on_manager (Methods.register_topic msg.topic value)
    answer_register c msg result

  unfoldable pub unregister_topic_handler : HandlerFunc S
  unfolding acknowledge
  unregister_topic_handler c msg = do
    ctx ← on_runtime make_context
    deferring (on_runtime (cancel ctx)) (do
      result ← on_manager (Methods.unregister_topic storage ctx msg.topic)
      acknowledge c msg result)

  abbrev answer_list : Client → WebSocketMessage → Result (List ℕ) → Go (Server S) (Unit {0})
  answer_list c msg (err e) = ack_response_error env c msg e
  answer_list c msg (ok topics) = do
    described ← on_manager (describe_each topics)
    ack_response_success_with_data env c msg (topic_list described)

  unfoldable pub list_topics_handler : HandlerFunc S
  unfolding describe_each ack_response_error ack_response_success_with_data
  list_topics_handler c msg = do topics ← on_manager Methods.list_topics; answer_list c msg topics

  unfoldable pub update_schema_handler : HandlerFunc S
  unfolding acknowledge ack_response_bad_request
  update_schema_handler c msg = with_data c msg msg.parsed_data λ value. do
    result ← on_manager (Methods.update_schema msg.topic value)
    acknowledge c msg result
