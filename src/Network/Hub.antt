-- ===== src/Network/Hub.antt =====
-- server/internal/network/hub.go: the clients that are connected, by their ids.
use data_loom.Common.{String, Option, [], string_eq}
use data_loom.Common.GoMap
use data_loom.Common.GoMap.{GoMap}
use data_loom.Network.{Client}

pub record ClientHub : Type 0 where
  pub clients : GoMap String Client

unfoldable pub new_client_hub : ClientHub
new_client_hub = record { clients = [] }

unfoldable pub add_client : Client → ClientHub → ClientHub
add_client client hub = record { clients = GoMap.put client.id client hub.clients }

unfoldable pub remove_client : Client → ClientHub → ClientHub
remove_client client hub = record { clients = GoMap.delete client.id hub.clients }

-- `nil` where the id is not there
unfoldable pub get_client : String → ClientHub → Option Client
get_client id hub = GoMap.get id hub.clients
