-- ===== src/Examples.antt =====
-- Small clients, documents and messages for the examples.
pub mod Topics
pub mod Managers
pub mod Servers
pub mod Storages
pub mod Connections
pub mod Conversations
pub mod Lifetimes
pub mod Mixtures
pub mod Losses
pub mod Interleavings
use data_loom.Common.{ℕ, zero, String, Bool, true, false, Option, none, some, List, [], ◌∷◌}
use data_loom.Schema.{Fields, Value, num, str, obj, end, field}
use data_loom.Network.{
  Client, WebSocketMessage, encoded, Outbound, response, broadcast, SocketError, close_error,
  WriteJson,
}

abbrev pub alice : Client
alice = record { address = 1; id = "alice" }

abbrev pub bob : Client
bob = record { address = 2; id = "bob" }

abbrev pub carol : Client
carol = record { address = 3; id = "carol" }

-- {"place": {"city": "Oslo"}, "degrees": 20}
abbrev pub reading : Fields
reading = field "place" (obj (field "city" (str "Oslo") end)) (field "degrees" (num 20) end)

-- The same keys in another order, with other values.
abbrev pub later_reading : Fields
later_reading = field "degrees" (num 4) (field "place" (obj (field "city" (str "Rome") end)) end)

-- {"degrees": 20}
abbrev pub short_reading : Fields
short_reading = field "degrees" (num 20) end

abbrev pub message : String → String → Option Fields → WebSocketMessage
message action topic value = record {
  message_id = "m1";
  sender_id = "";
  action = action;
  topic = topic;
  raw_data = none;
  require_ack = true;
  parsed_data = value;
}

-- Every connection was closed.
abbrev pub closed_sockets : WriteJson
closed_sockets net c m = some (close_error 1000 "bye")

-- Broadcasts find the connections closed, responses do not.
abbrev pub leaving_sockets : WriteJson
leaving_sockets net c (broadcast m) = some (close_error 1001 "going away")
leaving_sockets net c (response r) = none
