-- ===== src/Server/Routing.antt =====
-- The table of handlers of server/internal/server/server.go, and RouteMessage.
use data_loom.Common.{String, ◌<>◌, none, some, List, [], ◌∷◌, string_eq}
use mathlib.Core.List.{foldl}
use data_loom.Common.GoMap
use data_loom.Common.GoMap.{GoMap}
use data_loom.Storage.{Storage}
use data_loom.Server.{Environs, ack_response_bad_request}
use data_loom.Server.Handlers
use data_loom.Server.Handlers.{HandlerFunc}
use data_loom.Server.Decorators.{
  inject_sender_id_decorator, require_topic_decorator, require_data_decorator, metrics_decorator,
}

-- The handlers by their actions.
abbrev pub HandlerTable : Type 0 → Type 0
HandlerTable S = GoMap String (HandlerFunc S)

module _ {S : Type 0} where
  -- The first decorator is the innermost.
  unfoldable pub register_handler :
      String
      → HandlerFunc S
      → List (HandlerFunc S → HandlerFunc S)
      → HandlerTable S
      → HandlerTable S
  register_handler action handler decorators =
      GoMap.put action (foldl (λ final dec. dec final) handler decorators)

module _ {S : Type 0} (storage : Storage S) (env : Environs) where
  abbrev topic_required : HandlerFunc S → HandlerFunc S
  topic_required = require_topic_decorator env

  abbrev data_required : HandlerFunc S → HandlerFunc S
  data_required = require_data_decorator env

  abbrev metrics : HandlerFunc S → HandlerFunc S
  metrics = metrics_decorator env

  abbrev sender_injected : HandlerFunc S → HandlerFunc S
  sender_injected = inject_sender_id_decorator env

  abbrev publish_decorators : List (HandlerFunc S → HandlerFunc S)
  publish_decorators = metrics ∷ sender_injected ∷ data_required ∷ topic_required ∷ []

  abbrev send_decorators : List (HandlerFunc S → HandlerFunc S)
  send_decorators = metrics ∷ sender_injected ∷ topic_required ∷ data_required ∷ []

  -- The calls of registerHandler, from the last to the first.
  unfoldable pub handlers : HandlerTable S
  unfolding register_handler
  handlers =
      register_handler "sendWithoutSave" (Handlers.send_without_save_handler storage env)
        send_decorators
        (register_handler "updateSchema" (Handlers.update_schema_handler storage env)
          (metrics ∷ topic_required ∷ data_required ∷ [])
          (register_handler "listTopics" (Handlers.list_topics_handler storage env) (metrics ∷ []) (
            register_handler "unregisterTopic" (Handlers.unregister_topic_handler storage env)
              (metrics ∷ topic_required ∷ [])
              (register_handler "registerTopic" (Handlers.register_topic_handler storage env)
                (metrics ∷ data_required ∷ topic_required ∷ [])
                (register_handler "get" (Handlers.get_handler storage env)
                  (metrics ∷ topic_required ∷ [])
                  (register_handler "unsubscribeAll" (Handlers.unsubscribe_all_handler storage env)
                    (metrics ∷ topic_required ∷ [])
                    (register_handler "unsubscribe" (Handlers.unsubscribe_handler storage env)
                      (metrics ∷ topic_required ∷ [])
                      (register_handler "publish" (Handlers.publish_handler storage env)
                        publish_decorators
                        (register_handler "subscribe" (Handlers.subscribe_handler storage env)
                          (metrics ∷ topic_required ∷ []) [])))))))))

  unfoldable pub route_message : HandlerTable S → HandlerFunc S
  unfolding ack_response_bad_request
  route_message table client msg = elim (GoMap.get msg.action table) [
    | none ↦ ack_response_bad_request env client msg ("unknown action: " <> msg.action)
    | some handler ↦ handler client msg
  ]
