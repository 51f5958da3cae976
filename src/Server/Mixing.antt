-- ===== src/Server/Mixing.antt =====
-- The connections of server/internal/server/server.go side by side: each goroutine of handleWebSocket
-- takes its steps, one for each read, between those of the others.
pub mod Membership
use data_loom.Common.{
  ℕ, String, ◌≡◌, Bool, true, false, Option, none, some, List, [], ◌∷◌, Outcome, done, ◌==◌,
  if◌then◌else◌, string_eq,
}
use data_loom.Network.{Client, client_eq, WebSocketMessage, SocketError, close_error}
use data_loom.Network.Hub.{add_client, remove_client, get_client}
use data_loom.Storage.{Storage}
use data_loom.Server.{Server, Environs, handle_socket_error, send_to_client}
use data_loom.Server.Routing.{handlers, route_message}
use data_loom.Server.Connection.{Request, Fresh, authorized, claimed_id}
use data_loom.Server.Serving.{Unregisters}
use data_loom.Server.Sweeping.{among}

-- The server, and the clients whose connections are open.
pub record Site (S : Type 0) : Type 0 where
  pub server : Server S
  pub connected : List Client

abbrev pub others : Client → List Client → List Client
others c [] = []
others c (d ∷ ds) = let rest = others c ds in if c == d then rest else d ∷ rest

abbrev pub newcomer : Fresh → ℕ → Client
newcomer fresh address = record { address = address; id = fresh.own_id }

module _ {S : Type 0} (storage : Storage S) (env : Environs) where
  -- One step: the beginning of a connection, which is added to the hub; what one read leads to; the end of
  -- a connection, with the deferred removal. A topic to unregister has to be there.
  pub data Step (s : Site S) : Site S → Type 0 where
    opens :
        (r : Request) (fresh : Fresh) (address : ℕ)
        → authorized s.server.config r ≡ true
        → get_client (claimed_id r fresh) s.server.hub ≡ none
        → fresh.upgraded ≡ some address
        → Step s (record {
          server = record s.server { hub = add_client (newcomer fresh address) s.server.hub };
          connected = newcomer fresh address ∷ s.connected;
        })
    receives :
        (c : Client) (msg : WebSocketMessage) (s' : Server S)
        → among c s.connected ≡ true
        → Unregisters msg.action msg s.server
        → route_message storage env (handlers storage env) c msg s.server ≡ done tt s'
        → Step s (record { server = s'; connected = s.connected })
    closes :
        (c : Client) (code : ℕ) (text : String) (s' : Server S)
        → among c s.connected ≡ true
        → handle_socket_error env.write_json
            (send_to_client env.write_json env.depth)
            (close_error code text)
            c
            s.server
          ≡ done false s'
        → Step s (record {
          server = record s' { hub = remove_client c s'.hub };
          connected = others c s.connected;
        })

  -- From a server to which nobody is connected.
  pub data Reach (Start : Server S → Type 0) : Site S → Type 0 where
    start : (s : Server S) → Start s → Reach Start (record { server = s; connected = [] })
    later : (s t : Site S) → Reach Start s → Step s t → Reach Start t
