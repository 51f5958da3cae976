-- ===== src/Server/Refusals.antt =====
-- RouteMessage of server/internal/server/server.go where no handler runs: unknown actions, and messages
-- without a topic.
use data_loom.Common.{
  ℕ, String, ◌<>◌, ◌≡◌, refl, sym, subst, true, Option, none, some, done, string_eq,
}
use data_loom.Common.GoMap
use data_loom.Common.Text.{trim_space, is_empty}
use data_loom.Schema.{null, obj, bool, num, str, arr}
use data_loom.Network.{
  Client, WebSocketMessage, RawMessage, empty, encoded, malformed, new_response, WriteJson,
}
use data_loom.Storage.{Storage}
use data_loom.Server.{Server, ack_response_bad_request}
use data_loom.Server.Handlers.{HandlerFunc}
use data_loom.Server.Decorators.{
  require_topic_decorator, require_data_decorator, check_data, parse_json,
}
use data_loom.Server.Routing.{HandlerTable, handlers, route_message}
use data_loom.Server.Sending.{send_succeeds}
use data_loom.Server.Answers.{Answers, environs, wrote, response_of}

-- The actions that are about a topic.
pub data TopicAction : Type 0 where
  subscribing unsubscribing unsubscribing_all getting unregistering : TopicAction
  publishing registering updating sending : TopicAction

abbrev pub action_name : TopicAction → String
action_name subscribing = "subscribe"
action_name unsubscribing = "unsubscribe"
action_name unsubscribing_all = "unsubscribeAll"
action_name getting = "get"
action_name unregistering = "unregisterTopic"
action_name publishing = "publish"
action_name registering = "registerTopic"
action_name updating = "updateSchema"
action_name sending = "sendWithoutSave"

module _ {S : Type 0} (storage : Storage S) (wj : WriteJson) (n : ℕ) (quiet : Answers wj) where
  -- The call ends with one response of code 400, and nothing else changes.
  abbrev pub Refused : HandlerFunc S → Client → WebSocketMessage → Server S → Type 0
  Refused h c msg s =
      (text : String) × (h c msg s ≡ done tt (wrote (response_of wj c msg 400 text s.world.net) s))

  pub refuse_lem :
      (c : Client) (msg : WebSocketMessage) (text : String) (s : Server S)
      → ack_response_bad_request (environs wj n) c msg text s
        ≡ done tt (wrote (response_of wj c msg 400 text s.world.net) s)
  unfolding ack_response_bad_request
  refuse_lem c msg text s = send_succeeds wj n c _ s (quiet _ c _)

  pub topic_first :
      (h : HandlerFunc S) (c : Client) (msg : WebSocketMessage) (s : Server S)
      → is_empty (trim_space msg.topic) ≡ true
      → Refused (require_topic_decorator (environs wj n) h) c msg s
  unfolding require_topic_decorator
  topic_first h c msg s blank =
      ("no topic provided", rw blank (refuse_lem c msg "no topic provided" s))

  data_checked :
      (h : HandlerFunc S) (c : Client) (msg : WebSocketMessage) (s : Server S)
      (raw : Option RawMessage)
      → is_empty (trim_space msg.topic) ≡ true
      → (text : String) × (check_data
            (environs wj n)
            (require_topic_decorator (environs wj n) h)
            c
            msg
            raw
            s
          ≡ done tt (wrote (response_of wj c msg 400 text s.world.net) s))
  unfolding parse_json new_response
  data_checked h c msg s none blank = (_, refuse_lem c msg _ s)
  data_checked h c msg s (some empty) blank = (_, refuse_lem c msg _ s)
  data_checked h c msg s (some (malformed text)) blank = (_, refuse_lem c msg _ s)
  data_checked h c msg s (some (encoded null)) blank = topic_first h c _ s blank
  data_checked h c msg s (some (encoded (obj fs))) blank = topic_first h c _ s blank
  data_checked h c msg s (some (encoded (bool b))) blank = (_, refuse_lem c msg _ s)
  data_checked h c msg s (some (encoded (num b))) blank = (_, refuse_lem c msg _ s)
  data_checked h c msg s (some (encoded (str b))) blank = (_, refuse_lem c msg _ s)
  data_checked h c msg s (some (encoded (arr b))) blank = (_, refuse_lem c msg _ s)

  data_first :
      (h : HandlerFunc S) (c : Client) (msg : WebSocketMessage) (s : Server S)
      → is_empty (trim_space msg.topic) ≡ true
      → Refused
          (require_data_decorator (environs wj n) (require_topic_decorator (environs wj n) h))
          c
          msg
          s
  unfolding require_data_decorator
  data_first h c msg s blank = data_checked h c msg s msg.raw_data blank

  -- The table leads an action to what was registered for it.
  routed :
      (c : Client) (msg : WebSocketMessage) (s : Server S) (name : String) (h : HandlerFunc S)
      → msg.action ≡ name
      → GoMap.get name (handlers storage (environs wj n)) ≡ some h
      → Refused h c msg s
      → Refused (route_message storage (environs wj n) (handlers storage (environs wj n))) c msg s
  unfolding route_message
  routed c msg s name h e found (text, refused) =
      let found' : GoMap.get msg.action (handlers storage (environs wj n)) ≡ some h =
        subst (λ a. GoMap.get a (handlers storage (environs wj n)) ≡ some h) (sym e) found in
      (text, rw (found', route_message) refused)

  -- Where responses are written without an error, a message with a blank topic, for any action of
  -- the table but listTopics, is answered with one response of code 400 and changes nothing else.
  pub route_message_blank :
      (a : TopicAction) (c : Client) (msg : WebSocketMessage) (s : Server S)
      → msg.action ≡ action_name a
      → is_empty (trim_space msg.topic) ≡ true
      → Refused (route_message storage (environs wj n) (handlers storage (environs wj n))) c msg s
  unfolding handlers GoMap.get GoMap.put
  route_message_blank subscribing c msg s e blank =
      routed c msg s _ _ e refl (topic_first _ c msg s blank)
  route_message_blank unsubscribing c msg s e blank =
      routed c msg s _ _ e refl (topic_first _ c msg s blank)
  route_message_blank unsubscribing_all c msg s e blank =
      routed c msg s _ _ e refl (topic_first _ c msg s blank)
  route_message_blank getting c msg s e blank =
      routed c msg s _ _ e refl (topic_first _ c msg s blank)
  route_message_blank unregistering c msg s e blank =
      routed c msg s _ _ e refl (topic_first _ c msg s blank)
  route_message_blank publishing c msg s e blank =
      routed c msg s _ _ e refl (topic_first _ c msg s blank)
  route_message_blank registering c msg s e blank =
      routed c msg s _ _ e refl (topic_first _ c msg s blank)
  route_message_blank updating c msg s e blank =
      routed c msg s _ _ e refl (data_first _ c msg s blank)
  route_message_blank sending c msg s e blank =
      routed c msg s _ _ e refl (data_first _ c msg s blank)

  -- An action that the table does not have is refused.
  pub route_message_unknown :
      (table : HandlerTable S) (c : Client) (msg : WebSocketMessage) (s : Server S)
      → GoMap.get msg.action table ≡ none
      → route_message storage (environs wj n) table c msg s
        ≡ done tt
            (wrote (response_of wj c msg 400 ("unknown action: " <> msg.action) s.world.net) s)
  unfolding route_message
  route_message_unknown table c msg s e = rw (e, route_message) (refuse_lem c msg _ s)
