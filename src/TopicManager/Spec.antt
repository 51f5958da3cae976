-- ===== src/TopicManager/Spec.antt =====
-- What the topic manager promises: each operation as a function on the map from names to topics,
-- with no pointers, locks or storage.
use mathlib.Core.Option
use data_loom.Common.{
  ◌+◌, ◌%◌, ◌^◌, true, [], ◌∷◌, nat_eq, String, ◌<>◌, Option, none, some, List, Result, ok, err,
  ◌==◌, if◌then◌else◌, string_eq,
}
use data_loom.Common.GoMap
use data_loom.Schema.{Fields, schemas_match}
use data_loom.Network.{Client, client_eq}
use data_loom.Topic
use data_loom.Topic.{Topic, TopicSchema}
use data_loom.TopicManager.Methods.{mismatch}
use data_loom.TopicManager.Valid.{View}

-- A topic's change, in words of its fields alone: a client is among the subscribers, or is not; the
-- next version is the last one plus 1, modulo 2 ^ 64, and stands for the given schema.
abbrev pub joined : Client → Topic → Topic
joined c t = record t { subscribers = GoMap.put c true t.subscribers }

abbrev pub left : Client → Topic → Topic
left c t = record t { subscribers = GoMap.delete c t.subscribers }

abbrev pub left_answer : Client → Topic → Result (Unit {0})
left_answer c t =
    if GoMap.has c t.subscribers
    then ok tt
    else err (
        "cannot unsubscribe client from topic. client is not subscribed to topic. topic: " <> t.name
        <> ", client: " <> c.id)

abbrev pub with_next_schema : Fields → Topic → Topic
with_next_schema schema t =
    let next = (t.latest_schema + 1) % 2 ^ 64 in
    record t {
      latest_schema = next;
      schemas = GoMap.put next (record { version = next; schema = schema }) t.schemas;
    }

abbrev pub fresh_topic : String → Fields → Topic
fresh_topic n schema = record {
  name = n;
  subscribers = [];
  schemas = (0, record { version = 0; schema = schema }) ∷ [];
  latest_schema = 0;
}

-- The topic of one name is changed, if there is one.
abbrev pub update_at : String → (Topic → Topic) → View → View
update_at n f w x = if n == x then Option.map f (w x) else w x

-- The topic of one name is replaced, added or taken away.
abbrev pub put_at : String → Option Topic → View → View
put_at n o w x = if n == x then o else w x

abbrev pub subscribe : String → Client → View → Result (Unit {0}) × View
subscribe n c w = (
  elim (w n) [ none ↦ err ("topic doesn't exist for " <> n) | some t ↦ ok tt ],
  update_at n (joined c) w,
)

abbrev pub unsubscribe : String → Client → View → Result (Unit {0}) × View
unsubscribe n c w = (
  elim (w n) [
    | none ↦ err (
        "cannot unsubscribe client from topic. topic doesn't exits. topic: " <> n <> ", client: "
        <> c.id)
    | some t ↦ left_answer c t
  ],
  update_at n (left c) w,
)

abbrev pub list_subscribers_for_topic : String → View → Result (List Client) × View
list_subscribers_for_topic n w = (
  elim (w n) [
    | none ↦ err ("cannot get subscribers for topic. topic doesn't exist. Topic: " <> n)
    | some t ↦ ok (Topic.list_subscribers t)
  ],
  w,
)

abbrev pub update_schema : String → Fields → View → Result (Unit {0}) × View
update_schema n schema w = (
  elim (w n) [
    | none ↦ err ("cannot update schema for topic " <> n <> ". Topic doesn't exist")
    | some t ↦ ok tt
  ],
  update_at n (with_next_schema schema) w,
)

-- The subscriber leaves every topic.
abbrev pub unsubscribe_all : Client → View → Unit {0} × View
unsubscribe_all c w = (tt, λ x. Option.map (left c) (w x))

-- What a registration does with the topic that is there, by its latest schema.
abbrev pub register_known : String → Fields → View → Option TopicSchema → Result (Unit {0}) × View
register_known n schema w (some current) =
    if schemas_match current.schema schema then (ok tt, w) else (err mismatch, w)
register_known n schema w none = (ok tt, update_at n (with_next_schema schema) w)

abbrev pub register_at : String → Fields → View → Option Topic → Result (Unit {0}) × View
register_at n schema w none = (ok tt, put_at n (some (fresh_topic n schema)) w)
register_at n schema w (some t) = register_known n schema w (GoMap.get t.latest_schema t.schemas)

-- A new name gets a new topic; a known one is left as it is, and its schema has to match.
abbrev pub register_topic : String → Fields → View → Result (Unit {0}) × View
register_topic n schema w = register_at n schema w (w n)
