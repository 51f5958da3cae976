-- ===== src/Network.antt =====
-- server/internal/network: messages and responses (dto.go), clients (client.go) and the hub of
-- connected clients (hub.go). A connection is gorilla/websocket's: what a write on it returns is a
-- parameter, a function of all that was written before.
pub mod Hub
use text.Mathlib.TextEquality.{eq_iff}
use data_loom.Common.{
  ℕ, String, ◌<>◌, Result, ok, err, ◌≡◌, ◌↔◌, Bool, true, ◌&&◌, Option, none, some, List, [], ◌∷◌,
  ◌++◌, arith, Comparable, ◌==◌, ==_iff, nat_eq, string_eq,
}
use data_loom.Schema.{Value, null, bool, num, str, arr, obj, Fields}

-- json.RawMessage, known by what json.Unmarshal makes of it: a document, a syntax error, no bytes.
pub data RawMessage : Type 0 where
  encoded : Value → RawMessage
  malformed : String → RawMessage
  empty : RawMessage

abbrev cannot_decode : String → Result (Option Fields)
cannot_decode kind =
    err ("json: cannot unmarshal " <> kind <> " into Go value of type map[string]interface {}")

-- json.Unmarshal into a `map[string]any`: `null` is read as the nil map, with no error.
unfoldable pub unmarshal : RawMessage → Result (Option Fields)
unmarshal (encoded null) = ok none
unmarshal (encoded (obj fs)) = ok (some fs)
unmarshal (encoded (bool b)) = cannot_decode "bool"
unmarshal (encoded (num n)) = cannot_decode "number"
unmarshal (encoded (str s)) = cannot_decode "string"
unmarshal (encoded (arr xs)) = cannot_decode "array"
unmarshal (malformed text) = err text
unmarshal empty = err "unexpected end of JSON input"

-- `Data` and `ParsedData` are `nil` or a value.
pub record WebSocketMessage : Type 0 where
  pub message_id : String
  pub sender_id : String
  pub action : String
  pub topic : String
  pub raw_data : Option RawMessage
  pub require_ack : Bool
  pub parsed_data : Option Fields

-- A nil map is `none`.
pub record TopicSchemaResponse : Type 0 where
  pub version : ℕ
  pub schema : Option Fields

pub record TopicResponse : Type 0 where
  pub name : String
  pub schema : TopicSchemaResponse

-- What the handlers pass as `data any`: nil, a map that may be nil, a topic's address, a list.
pub data Payload : Type 0 where
  nil : Payload
  json_map : Option Fields → Payload
  topic_ref : ℕ → Payload
  topic_list : List TopicResponse → Payload

pub record Response : Type 0 where
  pub message_id : String
  pub action : String
  pub code : ℕ
  pub message : String
  pub payload : Payload
  pub kind : String

unfoldable pub new_response : WebSocketMessage → ℕ → String → Payload → Response
new_response msg code message payload = record {
  message_id = msg.message_id;
  action = msg.action;
  message = message;
  code = code;
  payload = payload;
  kind = "response";
}

-- `*Client`: the address is the pointer, and the id is set once, when the client is made.
pub record Client : Type 0 where
  pub address : ℕ
  pub id : String

abbrev pub client_beq : Client → Client → Bool
client_beq a b = a.address == b.address && a.id == b.id

pub client_beq_iff : (a b : Client) → (client_beq a b ≡ true) ↔ (a ≡ b)
client_beq_iff a b = ground (arith, eq_iff a.id b.id)

instance abbrev pub client_eq : Comparable Client
client_eq = record { equal = client_beq; equal_iff = client_beq_iff }

-- What a websocket call can return as its error, by the tests that the program makes on it.
pub data SocketError : Type 0 where
  close_error : ℕ → String → SocketError
  syntax_error : String → SocketError
  type_error : String → SocketError
  other_error : String → SocketError

pub data Outbound : Type 0 where
  response : Response → Outbound
  broadcast : WebSocketMessage → Outbound

-- One call of WriteJSON: on which client's connection, with what, and its result.
pub record Write : Type 0 where
  pub client : Client
  pub message : Outbound
  pub result : Option SocketError

-- All writes so far, the oldest first.
abbrev pub Net : Type 0
Net = List Write

-- Conn.WriteJSON, for each history of writes.
abbrev pub WriteJson : Type 0
WriteJson = Net → Client → Outbound → Option SocketError

module _ (write_json : WriteJson) where
  abbrev pub written : Client → Outbound → Net → Write
  written c m net = record { client = c; message = m; result = write_json net c m }

  unfoldable pub send_json : Client → Outbound → Net → Option SocketError × Net
  send_json c m net = (write_json net c m, net ++ written c m net ∷ [])
