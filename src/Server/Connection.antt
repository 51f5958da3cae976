-- ===== src/Server/Connection.antt =====
-- handleWebSocket of server/internal/server/server.go: the life of one connection, from the request
-- to the loop that reads messages.
use data_loom.Common.{
  ℕ, String, Bool, true, false, not, Option, none, some, List, [], ◌∷◌, Go, done, parked, ◌==◌,
  if◌then◌else◌, pure, modify, ◌>>=◌, ◌>>◌, string_eq,
}
use data_loom.Common.Text.{trim_space}
use data_loom.Config.{Config}
use data_loom.Network.{Client, WebSocketMessage, SocketError}
use data_loom.Network.Hub.{ClientHub, add_client, remove_client, get_client}
use data_loom.Storage.{Storage}
use data_loom.Server.{Server, Environs, handle_socket_error, send_to_client, deferring}
use data_loom.Server.Routing.{HandlerTable, route_message}

-- The two headers that are read.
pub record Request : Type 0 where
  pub authorization : String
  pub client_id : String

-- What the packages answer: two fresh ids, and the address of the new connection's client unless the
-- upgrade fails.
pub record Fresh : Type 0 where
  pub fallback_id : String
  pub own_id : String
  pub upgraded : Option ℕ

-- How ReadJSON ends.
pub data Read : Type 0 where
  received : WebSocketMessage → Read
  broken : SocketError → Read

-- How the request ends.
pub data Served : Type 0 where
  unauthorized : Served
  conflict : Served
  not_upgraded : Served
  closed : Served

abbrev is_nil : {A : Type 0} → Option A → Bool
is_nil none = true
is_nil (some a) = false

unfoldable pub authorized : Config → Request → Bool
authorized config r =
    if config.api_key == "" then true else trim_space r.authorization == config.api_key

unfoldable pub claimed_id : Request → Fresh → String
claimed_id r fresh = if r.client_id == "" then fresh.fallback_id else r.client_id

module _ {S : Type 0} (storage : Storage S) (env : Environs) (table : HandlerTable S) where
  -- The loop, over what the reads return; it waits when nothing more is read.
  unfoldable pub read_loop : Client → List Read → Go (Server S) (Unit {0})
  unfolding handle_socket_error
  read_loop c [] s = parked s
  read_loop c (received msg ∷ rest) s =
      (do route_message storage env table c msg; read_loop c rest) s
  read_loop c (broken e ∷ rest) s =
      (do
        good ← handle_socket_error env.write_json (send_to_client env.write_json env.depth) e c
        if good then read_loop c rest else pure tt)
        s

  abbrev on_hub : (ClientHub → ClientHub) → Go (Server S) (Unit {0})
  on_hub f = modify (λ s. record s { hub = f s.hub })

  unfoldable pub converse : Client → List Read → Go (Server S) Served
  unfolding read_loop
  converse client reads = do
    on_hub (add_client client)
    deferring (on_hub (remove_client client)) (read_loop client reads)
    pure closed

  abbrev after_upgrade : Option ℕ → String → List Read → Go (Server S) Served
  after_upgrade none id reads = pure not_upgraded
  after_upgrade (some address) id reads = converse (record { address = address; id = id }) reads

  -- The id that is looked up is the one that the request claims; the client gets a fresh one.
  unfoldable pub handle_web_socket : Request → Fresh → List Read → Go (Server S) Served
  unfolding authorized claimed_id converse
  handle_web_socket r fresh reads s =
      if not (authorized s.config r)
      then done unauthorized s
      else if not (is_nil (get_client (claimed_id r fresh) s.hub))
      then done conflict s
      else after_upgrade fresh.upgraded fresh.own_id reads s
