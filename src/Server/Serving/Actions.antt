-- ===== src/Server/Serving/Actions.antt =====
-- RouteMessage of server/internal/server/server.go for every action of the table: the handlers of
-- handlers.go, over a storage that answers.
use data_loom.Common.{
  ℕ, String, ◌≡◌, ◌≢◌, refl, ap, sym, subst, ◌∙◌, inl, inr, Option, none, some, Outcome, done,
  Result, length, Option-cases, string_eq,
}
use data_loom.Common.GoMap
use data_loom.Common.GoMap.{is_some, some_of_is_some, get-put, get-empty}
use data_loom.Network.{Client, WebSocketMessage, WriteJson}
use data_loom.Storage.{Storage}
use data_loom.Storage.Answering.{Total}
use data_loom.TopicManager.Valid.{View, view, IsValid}
use data_loom.TopicManager.Reads.{get_missing}
use data_loom.Server.{Server}
use data_loom.Server.Handlers
use data_loom.Server.Handlers.{HandlerFunc}
use data_loom.Server.Decorators.{
  require_topic_decorator, require_data_decorator, inject_sender_id_decorator, metrics_decorator,
}
use data_loom.Server.Routing.{handlers, route_message}
use data_loom.Server.Answers.{
  Answers, environs, with_tm, answered, wrote, Handled, subscribe_handler_lem,
  unsubscribe_handler_lem, unsubscribe_all_handler_lem, update_schema_handler_lem, unparsed_lem,
}
use data_loom.Server.Registering.{register_topic_handler_lem}
use data_loom.Server.Fetching.{
  context_ended, get_handler_runs, get_handler_lem, unregister_topic_handler_lem,
}
use data_loom.Server.Listing.{list_topics_handler_lem}
use data_loom.Server.Publishing.{publish_to_missing, send_without_save-eq-publish, launched}
use data_loom.Server.Persisting.{publish_persists}
use data_loom.Server.Refusals.{route_message_unknown}
use data_loom.TopicManager.Subscriptions.{
  Joins, Joins-of_Isolates, Joins-put_none, subscribed, Isolates, Isolates-same, Isolates-subscribe,
  Isolates-unsubscribe, Isolates-unsubscribe_all, Isolates-update_schema, Isolates-register_topic,
}
use data_loom.Server.Serving.{
  InOrder, Serves, Unregisters, same_call, only_writes, Good, AllGood, AllGood-empty, AllGood-put,
  metrics-Good, inject-Good, topic-Good, data-Good,
}

module _ {S : Type 0} (Open : S → Type 0) (storage : Storage S) (total : Total storage Open)
    (wj : WriteJson) (n : ℕ) (quiet : Answers wj) where
  -- A call that leaves the manager in order with the map `w`, the storage open, and the hub alone.
  leaves :
      (a : String) (c : Client) (s s' : Server S) (o : Outcome (Server S) (Unit {0})) (w : View)
      → o ≡ done tt s'
      → IsValid s'.world.tm
      → Open s'.world.tm.db
      → s'.hub ≡ s.hub
      → ((x : String) → view s'.world.tm x ≡ w x)
      → (a ≢ "unregisterTopic" → Isolates c (view s.world.tm) w)
      → Joins c (view s.world.tm) w
      → Serves Open a c s o
  leaves a c s s' o w e valid opened hub sees isolates joins = record {
    after = s';
    returns = e;
    in_order = record { valid = valid; opened = opened };
    keeps_hub = hub;
    isolates = λ ne d x other. ap (subscribed d) (sees x) ∙ isolates ne d x other;
    joins = λ d x other there. joins d x other (sym (ap (subscribed d) (sees x)) ∙ there);
  }

  -- The same for one that changes nobody else's subscriptions.
  left_with :
      (a : String) (c : Client) (s s' : Server S) (o : Outcome (Server S) (Unit {0})) (w : View)
      → o ≡ done tt s'
      → IsValid s'.world.tm
      → Open s'.world.tm.db
      → s'.hub ≡ s.hub
      → ((x : String) → view s'.world.tm x ≡ w x)
      → Isolates c (view s.world.tm) w
      → Serves Open a c s o
  left_with a c s s' o w e valid opened hub sees isolates =
      leaves a c s s' o w e valid opened hub sees (λ ne. isolates)
        (Joins-of_Isolates c (view s.world.tm) w isolates)

  -- The handlers that pass one call on to the manager.
  Handled-Serves :
      (a : String) (h : HandlerFunc S) (c : Client) (msg : WebSocketMessage) (s : Server S)
      (r : Result (Unit {0}) × View)
      → InOrder Open s
      → Handled storage wj n quiet h c msg s r
      → Isolates c (view s.world.tm) r.1
      → Serves Open a c s (h c msg s)
  Handled-Serves a h c msg s r v d isolates =
      left_with a c s (answered storage wj n quiet c msg r.0 (with_tm s d.tm)) _ r.1 d.returns
        d.valid (subst Open (sym d.keeps_db) v.opened) refl d.sees isolates

  subscribe-Good : (a : String) → Good Open a (Handlers.subscribe_handler storage (environs wj n))
  subscribe-Good a c msg s v u =
      Handled-Serves a _ c msg s _ v (subscribe_handler_lem storage wj n quiet c msg s v.valid)
        (Isolates-subscribe c msg.topic (view s.world.tm))

  unsubscribe-Good :
      (a : String) → Good Open a (Handlers.unsubscribe_handler storage (environs wj n))
  unsubscribe-Good a c msg s v u =
      Handled-Serves a _ c msg s _ v (unsubscribe_handler_lem storage wj n quiet c msg s v.valid)
        (Isolates-unsubscribe c msg.topic (view s.world.tm))

  unsubscribe_all-Good :
      (a : String) → Good Open a (Handlers.unsubscribe_all_handler storage (environs wj n))
  unsubscribe_all-Good a c msg s v u =
      Handled-Serves a _ c msg s _ v
        (unsubscribe_all_handler_lem storage wj n quiet c msg s v.valid)
        (Isolates-unsubscribe_all c msg.topic (view s.world.tm))

  update-Good : (a : String) → Good Open a (Handlers.update_schema_handler storage (environs wj n))
  update-Good a c msg s v u = elim (Option-cases msg.parsed_data) [
    | inl e ↦ only_writes Open a c s _ _ v (unparsed_lem storage wj n quiet c msg s e).0
    | inr (value, e) ↦
        Handled-Serves a _ c msg s _ v
          (update_schema_handler_lem storage wj n quiet c msg s v.valid value e)
          (Isolates-update_schema c msg.topic (view s.world.tm) value)
  ]

  register-Good :
      (a : String) → Good Open a (Handlers.register_topic_handler storage (environs wj n))
  register-Good a c msg s v u = elim (Option-cases msg.parsed_data) [
    | inl e ↦ only_writes Open a c s _ _ v (unparsed_lem storage wj n quiet c msg s e).1
    | inr (value, e) ↦
        let (tm, r, returns, _, sees, valid, kept) =
          register_topic_handler_lem storage wj n quiet c msg s v.valid value e in
        left_with a c s _ _ _ returns valid (subst Open (sym kept) v.opened) refl sees
          (Isolates-register_topic c msg.topic (view s.world.tm) value)
  ]

  publish-Good : (a : String) → Good Open a (Handlers.publish_handler storage (environs wj n))
  publish-Good a c msg s v u = elim (Option-cases msg.parsed_data) [
    | inl e ↦ only_writes Open a c s _ _ v (unparsed_lem storage wj n quiet c msg s e).2
    | inr (value, e) ↦ elim (Option-cases (view s.world.tm msg.topic)) [
      | inl unseen ↦
          let (s', returns, _, _, sees, kept, valid, hub) =
            publish_to_missing storage wj n quiet c msg s v.valid value e unseen in
          left_with a c s s' _ _ returns valid (subst Open (sym kept) v.opened) hub sees
            (Isolates-same c _ _ (λ x. refl))
      | inr (t, seen) ↦
          let (ch, st, stored, opened) =
            total.puts (length s.world.runtime.contexts) msg.topic value s.world.runtime.clock
              (record { db = s.world.tm.db; runtime = launched storage wj n quiet c msg s value })
              v.opened in
          let (s', ws, d) =
            publish_persists storage wj n quiet c msg s v.valid value e t seen ch st.db st.runtime
              stored in
          left_with a c s s' _ _ d.publishes d.valid (subst Open (sym d.db_after) opened)
            d.keeps_hub d.sees (Isolates-same c _ _ (λ x. refl))
    ]
  ]

  send-Good :
      (a : String) → Good Open a (Handlers.send_without_save_handler storage (environs wj n))
  send-Good a c msg s v u =
      same_call Open a c s _ _ (send_without_save-eq-publish storage (environs wj n) c msg s)
        (publish-Good a c msg s v u)

  get-Good : (a : String) → Good Open a (Handlers.get_handler storage (environs wj n))
  get-Good a c msg s v u = elim (Option-cases (view s.world.tm msg.topic)) [
    | inl unseen ↦
        left_with a c s (wrote _ (context_ended (with_tm s s.world.tm))) _ _
          (get_handler_runs storage wj n quiet c msg s s.world.tm _
            (get_missing s.world.tm msg.topic v.valid storage _ unseen))
          v.valid v.opened refl (λ x. refl) (Isolates-same c _ _ (λ x. refl))
    | inr (t, seen) ↦
        let (r, db, got, opened) =
          total.gets (length s.world.runtime.contexts) msg.topic s.world.tm.db v.opened in
        let (tm, returns, sees, kept, valid) =
          get_handler_lem storage wj n quiet c msg s v.valid t seen r db got in
        left_with a c s _ _ _ returns valid (subst Open (sym kept) opened) refl sees
          (Isolates-same c _ _ (λ x. refl))
  ]

  unregister-Good :
      Good Open "unregisterTopic" (Handlers.unregister_topic_handler storage (environs wj n))
  unregister-Good c msg s v u =
      let (t, seen) = some_of_is_some (view s.world.tm msg.topic) (u refl) in
      let (r, db, e, opened) =
        total.deletes (length s.world.runtime.contexts) msg.topic s.world.tm.db v.opened in
      let (tm, returns, valid, sees, kept) =
        unregister_topic_handler_lem storage wj n quiet c msg s v.valid t seen r db e in
      leaves _ c s _ _ _ returns valid (subst Open (sym kept) opened) refl sees
        (λ ne. absurd (ne refl)) (Joins-put_none c msg.topic (view s.world.tm))

  list-Good : (a : String) → Good Open a (Handlers.list_topics_handler storage (environs wj n))
  list-Good a c msg s v u =
      only_writes Open a c s _ _ v (list_topics_handler_lem storage wj n quiet c msg s v.valid)

  -- The decorators, for this storage and these writes.
  metrics_keeps :
      (a : String) (h : HandlerFunc S)
      → Good Open a h
      → Good Open a (metrics_decorator (environs wj n) h)
  metrics_keeps = metrics-Good Open storage wj n quiet

  sender_keeps :
      (a : String) (h : HandlerFunc S)
      → Good Open a h
      → Good Open a (inject_sender_id_decorator (environs wj n) h)
  sender_keeps = inject-Good Open storage wj n quiet

  topic_keeps :
      (a : String) (h : HandlerFunc S)
      → Good Open a h
      → Good Open a (require_topic_decorator (environs wj n) h)
  topic_keeps = topic-Good Open storage wj n quiet

  data_keeps :
      (a : String) (h : HandlerFunc S)
      → Good Open a h
      → Good Open a (require_data_decorator (environs wj n) h)
  data_keeps = data-Good Open storage wj n quiet

  guarded :
      (a : String) (h : HandlerFunc S)
      → Good Open a h
      → Good Open a (require_topic_decorator (environs wj n) (metrics_decorator (environs wj n) h))
  guarded a h good = topic_keeps a _ (metrics_keeps a h good)

  handlers-AllGood : AllGood Open (handlers storage (environs wj n))
  unfolding handlers
  handlers-AllGood =
      AllGood-put Open _ _ _
        (data_keeps _ _ (topic_keeps _ _ (sender_keeps _ _ (metrics_keeps _ _ (send-Good _)))))
        (AllGood-put Open _ _ _ (data_keeps _ _ (guarded _ _ (update-Good _))) (
          AllGood-put Open _ _ _ (metrics_keeps _ _ (list-Good _)) (
            AllGood-put Open _ _ _ (guarded _ _ unregister-Good) (
              AllGood-put Open _ _ _
                (topic_keeps _ _ (data_keeps _ _ (metrics_keeps _ _ (register-Good _))))
                (AllGood-put Open _ _ _ (guarded _ _ (get-Good _)) (
                  AllGood-put Open _ _ _ (guarded _ _ (unsubscribe_all-Good _)) (
                    AllGood-put Open _ _ _ (guarded _ _ (unsubscribe-Good _)) (
                      AllGood-put Open _ _ _
                        (topic_keeps _ _
                          (data_keeps _ _ (sender_keeps _ _ (metrics_keeps _ _ (publish-Good _)))))
                        (AllGood-put Open _ _ _ (guarded _ _ (subscribe-Good _))
                          (AllGood-empty Open))))))))))

  routed-Serves :
      (c : Client) (msg : WebSocketMessage) (s : Server S) (found : Option (HandlerFunc S))
      → GoMap.get msg.action (handlers storage (environs wj n)) ≡ found
      → InOrder Open s
      → Unregisters msg.action msg s
      → Serves Open msg.action c s
          (route_message storage (environs wj n) (handlers storage (environs wj n)) c msg s)
  unfolding route_message
  routed-Serves c msg s none e v u =
      only_writes Open _ c s _ _ v
        (route_message_unknown storage wj n quiet (handlers storage (environs wj n)) c msg s e)
  routed-Serves c msg s (some h) e v u =
      same_call Open _ c s _ _ (rw (e, route_message)) (handlers-AllGood msg.action h e c msg s v u)

  -- From a server in order, where the storage's calls return while it is open and responses are
  -- written without an error, RouteMessage returns for every message, of whatever action and
  -- content, except that a topic to unregister has to be there. It leaves the server in order and
  -- the hub as it was; and unless the action is unregisterTopic, every client but the sender is in
  -- the topics it was in; in any case none is in a topic it was not in.
  pub route_message-Serves :
      (c : Client) (msg : WebSocketMessage) (s : Server S)
      → InOrder Open s
      → Unregisters msg.action msg s
      → Serves Open msg.action c s
          (route_message storage (environs wj n) (handlers storage (environs wj n)) c msg s)
  route_message-Serves c msg s v u = routed-Serves c msg s _ refl v u
