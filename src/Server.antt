-- ===== src/Server.antt =====
-- server/internal/server/server.go: the server's state, sending to a client and what a socket's
-- error leads to; and the acknowledgements of handlers.go.
pub mod Handlers
pub mod Decorators
pub mod Routing
pub mod Connection
pub mod Cleanup
pub mod Sending
pub mod Answers
pub mod Publishing
pub mod Persisting
pub mod Losing
pub mod Refusals
pub mod Closing
pub mod Sweeping
pub mod Failing
pub mod Registering
pub mod Fetching
pub mod Listing
pub mod Serving
pub mod Conversing
pub mod Visiting
pub mod Mixing
pub mod Waiting
pub mod Awaiting
pub mod Reporting
use data_loom.Common.{
  ℕ, zero, suc, String, Bool, true, false, Option, none, some, Go, Outcome, done, parked, panic,
  if◌then◌else◌, pure, gets, modify, zoom, ◌>>=◌, ◌>>◌,
}
use data_loom.Common.GoMap
use data_loom.Common.GoMap.{GoMap}
use data_loom.Config.{Config}
use data_loom.Logging.{RwMutex, unlocked, lock, unlock}
use data_loom.Network.{
  Client, client_eq, WebSocketMessage, Outbound, response, SocketError, close_error, syntax_error,
  type_error, other_error, new_response, Payload, nil, WriteJson, send_json,
}
use data_loom.Network.Hub.{ClientHub}
use data_loom.Runtime.{Runtime}
use data_loom.Topic.{increment}
use data_loom.TopicManager.{TopicManager}
use data_loom.TopicManager.Methods.{unsubscribe_all}
use data_loom.TopicManager.Publish.{World}

-- `failed_clients` is nil or a map.
pub record Server (S : Type 0) : Type 0 where
  pub world : World S
  pub open world use *
  pub hub : ClientHub
  pub config : Config
  pub failed_clients : Option (GoMap Client ℕ)
  pub mu : RwMutex

-- FAILED_MESSAGE_THRESHOLD
abbrev pub failed_message_threshold : ℕ
failed_message_threshold = 3

-- A new server's map of failed clients is nil: no line makes one.
unfoldable pub new_web_socket_server : {S : Type 0} → ClientHub → World S → Config → Server S
new_web_socket_server hub world config = record {
  world = world;
  hub = hub;
  config = config;
  failed_clients = none;
  mu = unlocked;
}

-- `defer d` at the beginning of `m`: it runs at a return and at a panic.
abbrev pub deferring : {S A : Type 0} → Go S (Unit {0}) → Go S A → Go S A
deferring d m s = elim (m s) [
  | done a t ↦ (do d; pure a) t
  | parked t ↦ parked t
  | panic e t ↦ (do d; panic e) t
]

module _ {S : Type 0} where
  abbrev pub on_world : {A : Type 0} → Go (World S) A → Go (Server S) A
  on_world = zoom (λ s. s.world) (λ w s. record s { world = w })

  abbrev pub on_manager : {A : Type 0} → Go (TopicManager S) A → Go (Server S) A
  on_manager = zoom (λ s. s.world.tm) (λ tm s. record s { world = record s.world { tm = tm } })

  abbrev pub on_runtime : {A : Type 0} → Go Runtime A → Go (Server S) A
  on_runtime =
      zoom (λ s. s.world.runtime) (λ r s. record s { world = record s.world { runtime = r } })

  abbrev pub on_mu : Go RwMutex (Unit {0}) → Go (Server S) (Unit {0})
  on_mu = zoom (λ s. s.mu) (λ m s. record s { mu = m })

  abbrev count_failure : Client → Option (GoMap Client ℕ) → Go (Server S) (Unit {0})
  count_failure c none = panic "assignment to entry in nil map"
  count_failure c (some counts) = modify λ s. record s {
    failed_clients = some (GoMap.put c (increment (GoMap.get_or 0 c counts)) counts);
  }

  unfoldable pub mark_client_failed : Client → Go (Server S) (Unit {0})
  unfolding lock unlock
  mark_client_failed c = do
    on_mu lock
    deferring (on_mu unlock) (λ s. count_failure c s.failed_clients s)

-- The response to what could not be read.
unfoldable pub unreadable : String → Outbound
unfolding new_response
unreadable text = response (
    new_response
      (record {
        message_id = "UNKNOWN";
        sender_id = "";
        action = "UNKNOWN";
        topic = "";
        raw_data = none;
        require_ack = false;
        parsed_data = none;
      })
      400 text nil)

module _ {S : Type 0} (write_json : WriteJson) where
  abbrev pub write : Client → Outbound → Go (Server S) (Option SocketError)
  write c m s =
      let (result, net) = send_json write_json c m s.world.net in
      done result (record s { world = record s.world { net = net } })

  -- handleWebSocketError, given what SendToClient does: whether the client is to be kept.
  unfoldable pub handle_socket_error :
      (Client → Outbound → Go (Server S) (Unit {0})) → SocketError → Client → Go (Server S) Bool
  handle_socket_error send (close_error code text) c = do on_manager (unsubscribe_all c); pure false
  handle_socket_error send (syntax_error text) c = do send c (unreadable text); pure true
  handle_socket_error send (type_error text) c = do send c (unreadable text); pure true
  handle_socket_error send (other_error text) c = pure true

  -- SendToClient and handleWebSocketError call one another; the first argument is how many such
  -- calls the stack has room for.
  unfoldable pub send_to_client : ℕ → Client → Outbound → Go (Server S) (Unit {0})
  unfolding handle_socket_error mark_client_failed
  send_to_client zero c m = panic "stack overflow"
  send_to_client (suc n) c m = do
    result ← write c m
    elim result [
      | none ↦ pure tt
      | some e ↦ (do
        good ← handle_socket_error (send_to_client n) e c
        if good then pure tt else mark_client_failed c)
    ]

-- What the handlers share: how writes end, and the room on the stack.
pub record Environs : Type 0 where
  pub write_json : WriteJson
  pub depth : ℕ

module _ {S : Type 0} (env : Environs) where
  abbrev pub send : Client → Outbound → Go (Server S) (Unit {0})
  send = send_to_client env.write_json env.depth

  abbrev pub respond : Client → WebSocketMessage → ℕ → String → Payload → Go (Server S) (Unit {0})
  respond c msg code text payload = send c (response (new_response msg code text payload))

  unfoldable pub ack_response_success : Client → WebSocketMessage → Go (Server S) (Unit {0})
  ack_response_success c msg = if msg.require_ack then respond c msg 200 "" nil else pure tt

  unfoldable pub ack_response_success_with_data :
      Client → WebSocketMessage → Payload → Go (Server S) (Unit {0})
  ack_response_success_with_data c msg payload = respond c msg 200 "" payload

  unfoldable pub ack_response_error : Client → WebSocketMessage → String → Go (Server S) (Unit {0})
  ack_response_error c msg text = respond c msg 500 text nil

  unfoldable pub ack_response_bad_request :
      Client → WebSocketMessage → String → Go (Server S) (Unit {0})
  ack_response_bad_request c msg text = respond c msg 400 text nil

  unfoldable pub ack_response_database_error :
      Client → WebSocketMessage → String → Go (Server S) (Unit {0})
  ack_response_database_error c msg text =
      respond c
        (record {
          message_id = msg.message_id;
          sender_id = "";
          action = "persist";
          topic = "";
          raw_data = none;
          require_ack = false;
          parsed_data = none;
        })
        500 text nil
