-- ===== src/Server/Fetching.antt =====
-- getHandler and unregisterTopicHandler of server/internal/server/handlers.go: the handlers that give
-- the storage a context, and end it when they return.
use data_loom.Common.{
  ℕ, String, ◌≡◌, true, false, Option, none, some, List, [], ◌∷◌, ◌++◌, arith, length, done, Result,
  ok, err, set, inl, inr, string_eq,
}
use data_loom.Schema.{Fields}
use data_loom.Network.{
  Client, WebSocketMessage, response, new_response, json_map, WriteJson, Net, Write, written,
}
use data_loom.Runtime.{make_context, cancel}
use data_loom.Storage.{Storage}
use data_loom.Topic.{Topic}
use data_loom.TopicManager.{TopicManager}
use data_loom.TopicManager.Methods
use data_loom.TopicManager.Methods.{explain_get, explain_delete}
use data_loom.TopicManager.Valid.{view, IsValid}
use data_loom.TopicManager.Spec.{put_at}
use data_loom.TopicManager.Refinement.{Found-cases}
use data_loom.TopicManager.Reads.{get_stored}
use data_loom.TopicManager.Removal.{unregister_topic_removes}
use data_loom.Server.{Server, ack_response_success_with_data, ack_response_error}
use data_loom.Server.Handlers
use data_loom.Server.Handlers.{answer_get, acknowledge}
use data_loom.Server.Sending.{send_succeeds}
use data_loom.Server.Answers.{
  Answers, environs, with_tm, response_of, answer_of, acknowledge_lem, wrote,
}

-- The server with a new context.
abbrev context_made : {S : Type 0} → Server S → Server S
context_made s = record s {
  world = record s.world {
    runtime = record s.world.runtime { contexts = s.world.runtime.contexts ++ false ∷ [] };
  };
}

-- The server after a handler whose context is done.
abbrev pub context_ended : {S : Type 0} → Server S → Server S
context_ended s = record s {
  world = record s.world {
    runtime = record s.world.runtime {
      contexts =
          set (s.world.runtime.contexts ++ false ∷ []) (length s.world.runtime.contexts) true;
    };
  };
}

-- The value with code 200, whether or not an acknowledgement was asked for, or the error with 500.
abbrev pub value_answer :
    WriteJson → Client → WebSocketMessage → Result (Option Fields) → Net → List Write
value_answer wj c msg (err e) net = response_of wj c msg 500 e net
value_answer wj c msg (ok value) net =
    written wj c (response (new_response msg 200 "" (json_map value))) net ∷ []

module _ {S : Type 0} (storage : Storage S) (wj : WriteJson) (n : ℕ) (quiet : Answers wj)
    (c : Client) (msg : WebSocketMessage) where
  answer_lem :
      (r : Result (Option Fields)) (s : Server S)
      → answer_get storage (environs wj n) c msg r s
        ≡ done tt (wrote (value_answer wj c msg r s.world.net) s)
  unfolding ack_response_success_with_data ack_response_error
  answer_lem (err e) s = send_succeeds wj n c _ s (quiet _ c _)
  answer_lem (ok value) s = send_succeeds wj n c _ s (quiet _ c _)

  -- The handler, by what the manager's Get returns.
  pub get_handler_runs :
      (s : Server S) (tm : TopicManager S) (r : Result (Option Fields))
      → Methods.get storage (length s.world.runtime.contexts) msg.topic s.world.tm ≡ done r tm
      → Handlers.get_handler storage (environs wj n) c msg s
        ≡ done tt (wrote (value_answer wj c msg r s.world.net) (context_ended (with_tm s tm)))
  unfolding Handlers.get_handler make_context cancel
  get_handler_runs s tm r e = ground (arith, e, answer_lem r (with_tm (context_made s) tm))

  unregister_handler_runs :
      (s : Server S) (tm : TopicManager S) (r : Result (Unit {0}))
      → Methods.unregister_topic storage (length s.world.runtime.contexts) msg.topic s.world.tm
        ≡ done r tm
      → Handlers.unregister_topic_handler storage (environs wj n) c msg s
        ≡ done tt (wrote (answer_of wj c msg r s.world.net) (context_ended (with_tm s tm)))
  unfolding Handlers.unregister_topic_handler make_context cancel
  unregister_handler_runs s tm r e =
      ground (arith, e, acknowledge_lem storage wj n quiet c msg r (with_tm (context_made s) tm))

  module _ (s : Server S) (v : IsValid s.world.tm) (t : Topic)
      (seen : view s.world.tm msg.topic ≡ some t) where
    pub get_handler_lem :
        (r : Result (Option Fields)) (db : S)
        → storage.get (length s.world.runtime.contexts) msg.topic s.world.tm.db ≡ done r db
        → (tm : TopicManager S) × (Handlers.get_handler storage (environs wj n) c msg s
            ≡ done tt (
                wrote
                  (value_answer wj c msg (explain_get r) s.world.net)
                  (context_ended (with_tm s tm))))
          × ((x : String) → view tm x ≡ view s.world.tm x)
          × (tm.db ≡ db)
          × IsValid tm
    get_handler_lem r db e =
        let (tm, returns, sees, kept, valid) =
          get_stored s.world.tm msg.topic v storage (length s.world.runtime.contexts) t r db seen
            e in
        (tm, get_handler_runs s tm (explain_get r) returns, sees, kept, valid)

    pub unregister_topic_handler_lem :
        (d : Result (Unit {0})) (db : S)
        → storage.delete (length s.world.runtime.contexts) msg.topic s.world.tm.db ≡ done d db
        → (tm : TopicManager S) × (Handlers.unregister_topic_handler storage (environs wj n) c msg s
            ≡ done tt (
                wrote
                  (answer_of wj c msg (explain_delete d) s.world.net)
                  (context_ended (with_tm s tm))))
          × IsValid tm
          × ((x : String) → view tm x ≡ put_at msg.topic none (view s.world.tm) x)
          × (tm.db ≡ db)
    unregister_topic_handler_lem d db e = elim (Found-cases s.world.tm msg.topic v) [
      | inl (_, unseen) ↦ absurd (ground (arith, unseen, seen))
      | inr (p, u, h) ↦
          let (tm, returns, valid, sees, kept) =
            unregister_topic_removes storage (length s.world.runtime.contexts) msg.topic s.world.tm
              p d db v h.entry e in
          (tm, unregister_handler_runs s tm (explain_delete d) returns, valid, sees, kept)
    ]
