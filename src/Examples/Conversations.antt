-- ===== src/Examples/Conversations.antt =====
-- Messages of every kind to a server without a database, and a whole connection.
use data_loom.Common.{
  String, ◌≡◌, refl, none, some, List, [], ◌∷◌, ◌++◌, done, ◌==◌, if◌then◌else◌, string_eq,
}
use data_loom.Network.{
  WebSocketMessage, response, new_response, topic_list, encoded, close_error, syntax_error, written,
}
use data_loom.Network.Hub.{get_client}
use data_loom.Schema.{obj}
use data_loom.Storage.NullStorage
use data_loom.Storage.Answering.{AlwaysOpen, null_storage-Total}
use data_loom.Storage.NullStorage.{NullStorage, null_storage}
use data_loom.TopicManager.{TopicManager}
use data_loom.TopicManager.Valid.{view}
use data_loom.Server.{Server}
use data_loom.Server.Handlers
use data_loom.Server.Answers.{environs, wrote}
use data_loom.Server.Routing.{handlers, route_message}
use data_loom.Server.Connection.{Read, received, broken, closed, handle_web_socket}
use data_loom.Server.Listing.{list_topics_handler_lem, listed}
use data_loom.Server.Serving.{InOrder, Serves}
use data_loom.Server.Serving.Actions.{route_message-Serves}
use data_loom.Server.Conversing.{connection_served, Ended, AllGoOn}
use data_loom.Examples.{alice, reading, message, leaving_sockets}
use data_loom.Examples.Managers.{manager, manager-IsValid}
use data_loom.Examples.Servers.{server, leaving-Answers}
use data_loom.Examples.Connections.{request, fresh, visitor, allowed, unclaimed}

abbrev pub ask : String → WebSocketMessage
ask action = message action "weather" none

list_topics_handler_lem_example :
    Handlers.list_topics_handler null_storage
      (environs leaving_sockets 9)
      alice
      (ask "listTopics")
      server
    ≡ done tt (
        wrote
          (written leaving_sockets alice
              (response (
                new_response
                  (ask "listTopics")
                  200
                  ""
                  (topic_list (listed (view manager) manager.topics))))
              []
            ∷ [])
          server)
list_topics_handler_lem_example =
    list_topics_handler_lem null_storage leaving_sockets 9 leaving-Answers alice (ask "listTopics")
      server manager-IsValid

in_order : InOrder AlwaysOpen server
in_order = record { valid = manager-IsValid; opened = tt }

route_message-Serves_example : Serves AlwaysOpen "subscribe" alice server (
    route_message null_storage
      (environs leaving_sockets 9)
      (handlers null_storage (environs leaving_sockets 9))
      alice
      (ask "subscribe")
      server)
route_message-Serves_example =
    route_message-Serves AlwaysOpen null_storage null_storage-Total leaving_sockets 9
      leaving-Answers alice (ask "subscribe") server in_order (λ e. cc)

-- A subscription, bytes that are no JSON, and a publish.
abbrev publication : WebSocketMessage
publication = record (ask "publish") { raw_data = some (encoded (obj reading)) }

abbrev pub reads : List Read
reads =
    received (ask "subscribe")
    ∷ broken (syntax_error "invalid character")
    ∷ received publication
    ∷ []

pub reads-AllGoOn : AllGoOn reads
reads-AllGoOn = ((λ e. cc), (tt, ((λ e. cc), tt)))

connection_served_example :
    (s' : Server NullStorage) × (handle_web_socket null_storage
        (environs leaving_sockets 9)
        (handlers null_storage (environs leaving_sockets 9))
        request
        fresh
        (reads ++ broken (close_error 1000 "bye") ∷ [])
        server
      ≡ done closed s')
    × ((x : String) → get_client x s'.hub ≡ (if "f2" == x then none else get_client x server.hub))
    × Ended AlwaysOpen visitor server s'
connection_served_example =
    connection_served AlwaysOpen null_storage null_storage-Total leaving_sockets 9 leaving-Answers
      1000 "bye" [] request fresh 7 reads server in_order reads-AllGoOn allowed unclaimed refl
