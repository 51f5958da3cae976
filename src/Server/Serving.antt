-- ===== src/Server/Serving.antt =====
-- What it is for a handler of server/internal/server to serve every message of an action, and the
-- decorators (decorators.go), which keep that.
pub mod Actions
use data_loom.Common.{
  ℕ, String, ◌<>◌, ◌≡◌, ◌≢◌, refl, ap, sym, subst, ◌∙◌, inl, inr, Bool, true, false, Option, none,
  some, List, [], ◌∷◌, arith, Go, Outcome, done, Result, ok, err, ◌==◌, ==_iff, if◌then◌else◌,
  Bool-cases, string_eq,
}
use data_loom.Common.GoMap
use data_loom.Common.GoMap.{is_some, get-put, get-empty}
use data_loom.Common.Text.{trim_space, is_empty}
use data_loom.Schema.{Fields}
use data_loom.Network.{
  Client, WebSocketMessage, RawMessage, empty, encoded, malformed, Write, WriteJson,
}
use data_loom.Storage.{Storage}
use data_loom.TopicManager.Valid.{View, view, IsValid}
use data_loom.TopicManager.Subscriptions.{Joins, Isolates, Isolates-same}
use data_loom.Server.{Server, ack_response_bad_request}
use data_loom.Server.Handlers.{HandlerFunc}
use data_loom.Server.Decorators.{
  require_topic_decorator, require_data_decorator, inject_sender_id_decorator, metrics_decorator,
  check_data, parse_json, with_payload,
}
use data_loom.Server.Routing.{HandlerTable}
use data_loom.Server.Answers.{Answers, environs, wrote, response_of}
use data_loom.Server.Refusals.{refuse_lem, topic_first}

-- The manager is in order and the storage open.
pub record InOrder {S : Type 0} (Open : S → Type 0) (s : Server S) : Type 0 where
  pub valid : IsValid s.world.tm
  pub opened : Open s.world.tm.db

-- A call for the client `c`, from `s`, returns and leaves the server in order, the hub as it was, and,
-- unless the action takes a topic away, the subscriptions of everybody else too. In any case nobody else
-- is subscribed who was not.
pub record Serves {S : Type 0} (Open : S → Type 0) (a : String) (c : Client) (s : Server S)
    (o : Outcome (Server S) (Unit {0})) : Type 0 where
  pub after : Server S
  pub returns : o ≡ done tt after
  pub in_order : InOrder Open after
  pub keeps_hub : after.hub ≡ s.hub
  pub isolates : a ≢ "unregisterTopic" → Isolates c (view s.world.tm) (view after.world.tm)
  pub joins : Joins c (view s.world.tm) (view after.world.tm)

-- A topic to unregister is there.
abbrev pub Unregisters : {S : Type 0} → String → WebSocketMessage → Server S → Type 0
Unregisters action msg s = (action ≡ "unregisterTopic") → is_some (view s.world.tm msg.topic) ≡ true

module _ {S : Type 0} (Open : S → Type 0) where
  pub same_call :
      (a : String) (c : Client) (s : Server S) (o o' : Outcome (Server S) (Unit {0}))
      → o ≡ o'
      → Serves Open a c s o'
      → Serves Open a c s o
  same_call a c s o o' e = subst (Serves Open a c s) (sym e)

  -- A call that only writes.
  pub only_writes :
      (a : String) (c : Client) (s : Server S) (ws : List Write) (o : Outcome (Server S) (Unit {0}))
      → InOrder Open s
      → o ≡ done tt (wrote ws s)
      → Serves Open a c s o
  only_writes a c s ws o v e = record {
    after = wrote ws s;
    returns = e;
    in_order = record { valid = v.valid; opened = v.opened };
    keeps_hub = refl;
    isolates = λ ne. Isolates-same c _ _ λ x. refl;
    joins = λ d x other there. there;
  }

  -- A handler for an action that serves every message.
  abbrev pub Good : String → HandlerFunc S → Type 0
  Good a h =
      (c : Client) (msg : WebSocketMessage) (s : Server S)
      → InOrder Open s
      → Unregisters a msg s
      → Serves Open a c s (h c msg s)

  abbrev pub AllGood : HandlerTable S → Type 0
  AllGood table = (a : String) (h : HandlerFunc S) → GoMap.get a table ≡ some h → Good a h

  pub AllGood-empty : AllGood []
  AllGood-empty a h e = absurd (cc (get-empty {V = HandlerFunc S} a))

  pub AllGood-put :
      (k : String) (h : HandlerFunc S) (table : HandlerTable S)
      → Good k h
      → AllGood table
      → AllGood (GoMap.put k h table)
  AllGood-put k h table good all a g e = elim (Bool-cases (k == a)) [
    | inl same ↦
        let found : some h ≡ some g = ground (arith, get-put k a h table, e, same) in
        subst (λ x. Good x g) ((==_iff k a).0 same) (subst (Good k) (some_eq found) good)
    | inr differs ↦ all a g (ground (arith, get-put k a h table, e, differs))
  ]
    where
      some_eq : {x y : HandlerFunc S} → some x ≡ some y → x ≡ y
      some_eq p = cc

  module _ (storage : Storage S) (wj : WriteJson) (n : ℕ) (quiet : Answers wj) where
    pub metrics-Good :
        (a : String) (h : HandlerFunc S) → Good a h → Good a (metrics_decorator (environs wj n) h)
    unfolding metrics_decorator
    metrics-Good a h good = good

    pub inject-Good :
        (a : String) (h : HandlerFunc S)
        → Good a h
        → Good a (inject_sender_id_decorator (environs wj n) h)
    unfolding inject_sender_id_decorator
    inject-Good a h good c msg s v u = good c (record msg { sender_id = c.id }) s v u

    pub topic-Good :
        (a : String) (h : HandlerFunc S)
        → Good a h
        → Good a (require_topic_decorator (environs wj n) h)
    unfolding require_topic_decorator
    topic-Good a h good c msg s v u = elim (Bool-cases (is_empty (trim_space msg.topic))) [
      | inl blank ↦
          let (text, e) = topic_first storage wj n quiet h c msg s blank in
          only_writes a c s _ _ v e
      | inr named ↦ rw named (good c msg s v u)
    ]

    -- A refusal, as a call that is served.
    refused_served :
        (a : String) (c : Client) (msg : WebSocketMessage) (text : String) (s : Server S)
        → InOrder Open s
        → Serves Open a c s (ack_response_bad_request (environs wj n) c msg text s)
    refused_served a c msg text s v =
        only_writes a c s _ _ v (refuse_lem storage wj n quiet c msg text s)

    module _ (a : String) (h : HandlerFunc S) (good : Good a h) (c : Client)
        (msg : WebSocketMessage) (s : Server S) (v : InOrder Open s) (u : Unregisters a msg s) where
      payload_served :
          (r : Result (Option Fields))
          → Serves Open a c s (with_payload (environs wj n) h c msg r s)
      payload_served (err e) = refused_served a c msg e s v
      payload_served (ok value) = good c (record msg { parsed_data = value }) s v u

      checked_served :
          (raw : Option RawMessage) → Serves Open a c s (check_data (environs wj n) h c msg raw s)
      checked_served none = refused_served a c msg "message data was null" s v
      checked_served (some empty) = refused_served a c msg "message data was empty" s v
      checked_served (some (encoded value)) = payload_served (parse_json (encoded value))
      checked_served (some (malformed text)) = payload_served (parse_json (malformed text))

    pub data-Good :
        (a : String) (h : HandlerFunc S)
        → Good a h
        → Good a (require_data_decorator (environs wj n) h)
    unfolding require_data_decorator
    data-Good a h good c msg s v u = checked_served a h good c msg s v u msg.raw_data
