-- ===== src/Topic.antt =====
-- server/internal/topic/topic.go. Each method holds the topic's own lock from its first line to its
-- return, so it is one step on the topic's state, and that lock is not a part of the state.
pub mod Versions
pub mod Subscribers
pub mod Changes
use data_loom.Common.{
  ℕ, ◌+◌, ◌%◌, ◌^◌, String, ◌<>◌, Bool, true, false, ◌&&◌, ◌||◌, Option, none, some, List, [], ◌∷◌,
  ◌++◌, map, Result, ok, err, ltb, ◌==◌, if◌then◌else◌, nat_eq,
}
use data_loom.Common.GoMap
use data_loom.Common.GoMap.{GoMap}
use data_loom.Schema.{Fields}
use data_loom.Network.{
  Client, client_eq, WebSocketMessage, SocketError, close_error, Outbound, broadcast, Net,
  WriteJson, send_json,
}

-- An `int` is its 64-bit pattern; patterns from 2 ^ 63 up are the negative numbers.
abbrev pub int_mod : ℕ
int_mod = 2 ^ 64

abbrev pub increment : ℕ → ℕ
increment v = (v + 1) % int_mod

-- The signed order, by moving both sides up by 2 ^ 63.
abbrev pub int_lt : ℕ → ℕ → Bool
int_lt a b = ltb ((a + 2 ^ 63) % int_mod) ((b + 2 ^ 63) % int_mod)

pub record TopicSchema : Type 0 where
  pub version : ℕ
  pub schema : Fields

pub record Topic : Type 0 where
  pub name : String
  pub subscribers : GoMap Client Bool
  pub schemas : GoMap ℕ TopicSchema
  pub latest_schema : ℕ

unfoldable pub new_topic : String → Fields → Topic
new_topic name schema = record {
  name = name;
  subscribers = [];
  schemas = GoMap.put 0 (record { version = 0; schema = schema }) [];
  latest_schema = 0;
}

unfoldable pub latest_schema_version : Topic → ℕ
latest_schema_version t = t.latest_schema

unfoldable pub name_with_lock : Topic → String
name_with_lock t = t.name

abbrev pub not_subscribed : Topic → Client → String
not_subscribed t client =
    "cannot unsubscribe client from topic. client is not subscribed to topic. topic: " <> t.name
    <> ", client: " <> client.id

unfoldable pub unsubscribe : Client → Topic → Result (Unit {0}) × Topic
unsubscribe client t = elim (GoMap.get client t.subscribers) [
  | none ↦ (err (not_subscribed t client), t)
  | some _ ↦ (ok tt, record t { subscribers = GoMap.delete client t.subscribers })
]

unfoldable pub subscribe : Client → Topic → Topic
subscribe client t = record t { subscribers = GoMap.put client true t.subscribers }

unfoldable pub is_client_subscribed : Client → Topic → Bool
is_client_subscribed client t = GoMap.has client t.subscribers

unfoldable pub list_subscribers : Topic → List Client
list_subscribers t = map (λ s. s.0) t.subscribers

unfoldable pub update_schema : Fields → Topic → Topic
update_schema schema t =
    let latest = increment t.latest_schema in
    record t {
      latest_schema = latest;
      schemas = GoMap.put latest (record { version = latest; schema = schema }) t.schemas;
    }

-- The loop that looks for the highest version.
unfoldable pub highest_version : ℕ → GoMap ℕ TopicSchema → ℕ
highest_version highest [] = highest
highest_version highest ((v, _) ∷ rest) =
    highest_version (if int_lt highest v then v else highest) rest

abbrev no_schemas : String
no_schemas = "no schemas found for topic, update schema"

abbrev corrupt : String
corrupt = "schema map is corrupt, no latest schema found"

abbrev or_corrupt : Option TopicSchema → Result TopicSchema
or_corrupt (some schema) = ok schema
or_corrupt none = err corrupt

-- The cached version is wrong: set it to the highest one.
unfoldable pub repair_latest : Topic → Result TopicSchema × Topic
unfolding highest_version
repair_latest t =
    let highest = highest_version 0 t.schemas in
    (or_corrupt (GoMap.get highest t.schemas), record t { latest_schema = highest })

abbrev latest_or_repair : Option TopicSchema → Topic → Result TopicSchema × Topic
latest_or_repair (some schema) t = (ok schema, t)
latest_or_repair none t = repair_latest t

abbrev get_latest_of : GoMap ℕ TopicSchema → Topic → Result TopicSchema × Topic
get_latest_of [] t = (err no_schemas, t)
get_latest_of (_ ∷ _) t = latest_or_repair (GoMap.get t.latest_schema t.schemas) t

unfoldable pub get_latest_schema : Topic → Result TopicSchema × Topic
get_latest_schema t = get_latest_of t.schemas t

-- The version asked for shows in the message only; `decimal` is the `%d` of it.
unfoldable pub get_schema_by_version : (ℕ → String) → ℕ → Topic → Result TopicSchema
get_schema_by_version decimal version_number t = elim (GoMap.get t.latest_schema t.schemas) [
  | none ↦ err ("cannot get schema version " <> decimal version_number <> ". Version doesn't exist")
  | some schema ↦ ok schema
]

-- websocket.IsCloseError(err, CloseNormalClosure, CloseGoingAway)
abbrev pub closed_by_peer : SocketError → Bool
closed_by_peer (close_error code text) = code == 1000 || code == 1001
closed_by_peer _ = false

abbrev pub failed : Option SocketError → Bool
failed none = false
failed (some e) = closed_by_peer e

module _ (write_json : WriteJson) where
  -- The loop over the subscribers: who failed, and the writes.
  unfoldable pub publish_each : List Client → WebSocketMessage → Net → List Client × Net
  publish_each [] msg net = ([], net)
  publish_each (client ∷ rest) msg net =
      let (result, net') = send_json write_json client (broadcast msg) net in
      let (failures, net'') = publish_each rest msg net' in
      (if failed result then client ∷ failures else failures, net'')

  unfoldable pub publish : Topic → Client → WebSocketMessage → Net → List Client × Net
  unfolding publish_each
  publish t sender msg net = publish_each (list_subscribers t) msg net
