-- ===== src/Examples/Mixtures.antt =====
-- Two connections side by side, and a message of the first one.
use data_loom.Common.{ℕ, String, ◌≡◌, refl, true, false, none, some, [], ◌∷◌, done, string_eq}
use data_loom.Common.GoMap
use data_loom.Network.{Client, client_eq, WebSocketMessage, close_error}
use data_loom.Network.Hub.{add_client, get_client, new_client_hub}
use data_loom.Storage.Answering.{AlwaysOpen, null_storage-Total}
use data_loom.Storage.NullStorage.{NullStorage, null_storage}
use data_loom.Server.{Server, handle_socket_error, send_to_client}
use data_loom.Server.Answers.{environs}
use data_loom.Server.Connection.{Fresh, authorized, claimed_id}
use data_loom.Server.Routing.{handlers, route_message}
use data_loom.Server.Serving.{InOrder, Serves, Unregisters}
use data_loom.Server.Serving.Actions.{route_message-Serves}
use data_loom.Server.Visiting.{Quiet}
use data_loom.Server.Mixing.{Site, opens, receives, Reach, start, later}
use data_loom.Server.Mixing.Membership.{Settled, mixed_connections_settle}
use data_loom.Main.{assemble}
use data_loom.Main.Lifetime.{assemble-Quiet}
use data_loom.Examples.{leaving_sockets}
use data_loom.Examples.Servers.{leaving-Answers}
use data_loom.Examples.Connections.{request, fresh, visitor}
use data_loom.Examples.Conversations.{ask}
use data_loom.Examples.Storages.{settings}

abbrev begun : Server NullStorage
begun = assemble 0 (record {}) settings

begun-Quiet : Quiet AlwaysOpen begun
begun-Quiet = assemble-Quiet AlwaysOpen 0 (record {}) settings tt

-- Another connection, with an id of its own.
abbrev guest_fresh : Fresh
guest_fresh = record { fallback_id = "f3"; own_id = "f4"; upgraded = some 8 }

abbrev guest : Client
guest = record { address = 8; id = "f4" }

-- Both have come in.
abbrev opened : Server NullStorage
opened = record begun { hub = add_client guest (add_client visitor begun.hub) }

opened-InOrder : InOrder AlwaysOpen opened
opened-InOrder = record { valid = begun-Quiet.in_order.valid; opened = tt }

listed : Serves AlwaysOpen "listTopics" visitor opened (
    route_message null_storage
      (environs leaving_sockets 9)
      (handlers null_storage (environs leaving_sockets 9))
      visitor
      (ask "listTopics")
      opened)
listed =
    route_message-Serves AlwaysOpen null_storage null_storage-Total leaving_sockets 9
      leaving-Answers visitor (ask "listTopics") opened opened-InOrder (λ e. cc)

abbrev site : Site NullStorage
site = record { server = listed.after; connected = guest ∷ visitor ∷ [] }

may_enter : authorized settings request ≡ true
unfolding authorized
may_enter = refl

nobody_yet : get_client (claimed_id request fresh) begun.hub ≡ none
unfolding claimed_id get_client GoMap.get assemble new_client_hub
nobody_yet = refl

still_unclaimed : get_client (claimed_id request guest_fresh) (add_client visitor begun.hub) ≡ none
unfolding claimed_id get_client add_client GoMap.get GoMap.put assemble new_client_hub
still_unclaimed = refl

site-Reach : Reach null_storage (environs leaving_sockets 9) (Quiet AlwaysOpen) site
unfolding assemble
site-Reach =
    later _ _
      (later _ _
        (later _ _ (start begun begun-Quiet) (opens request fresh 7 may_enter nobody_yet refl))
        (opens request guest_fresh 8 may_enter still_unclaimed refl))
      (receives visitor (ask "listTopics") listed.after refl (λ e. cc) listed.returns)

mixed_connections_settle_example :
    Settled AlwaysOpen site
    × ((c : Client) (msg : WebSocketMessage)
        → Unregisters msg.action msg site.server
        → (s' : Server NullStorage) × (route_message null_storage
              (environs leaving_sockets 9)
              (handlers null_storage (environs leaving_sockets 9))
              c
              msg
              site.server
            ≡ done tt s'))
    × ((c : Client) (code : ℕ) (text : String)
        → (s' : Server NullStorage) × (handle_socket_error leaving_sockets
              (send_to_client leaving_sockets (environs leaving_sockets 9).depth)
              (close_error code text)
              c
              site.server
            ≡ done false s'))
mixed_connections_settle_example =
    mixed_connections_settle AlwaysOpen null_storage null_storage-Total leaving_sockets 9
      leaving-Answers site site-Reach
