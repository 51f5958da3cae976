-- ===== src/Server/Answers.antt =====
-- The handlers that pass one call to the topic manager: what they answer, and what they change.
use mathlib.Core.List.{append-nil}
use data_loom.Common.{
  ℕ, suc, String, ◌≡◌, ap, sym, ◌∙◌, none, some, List, [], ◌∷◌, ◌++◌, arith, Go, done, Result, ok,
  err, if◌then◌else◌, ◌>>=◌, bind_done, Bool-cases, inl, inr,
}
use data_loom.Schema.{Fields}
use data_loom.Network.{
  Client, WebSocketMessage, response, Response, nil, new_response, WriteJson, Net, Write, written,
}
use data_loom.Storage.{Storage}
use data_loom.TopicManager.{TopicManager}
use data_loom.TopicManager.Methods
use data_loom.TopicManager.Valid.{View, view, IsValid}
use data_loom.TopicManager.Spec
use data_loom.TopicManager.Refinement.{
  Refines, subscribe_refines, unsubscribe_refines, update_schema_refines,
}
use data_loom.TopicManager.UnsubscribeAll.{unsubscribe_all_refines}
use data_loom.Server.{Server, Environs, on_manager, ack_response_success}
use data_loom.Server.Handlers
use data_loom.Server.Handlers.{HandlerFunc, acknowledge, unparsed}
use data_loom.Server.Sending.{send_succeeds}

-- Responses are written without an error.
abbrev pub Answers : WriteJson → Type 0
Answers wj = (net : Net) (c : Client) (r : Response) → wj net c (response r) ≡ none

abbrev pub environs : WriteJson → ℕ → Environs
environs wj n = record { write_json = wj; depth = suc n }

abbrev pub with_tm : {S : Type 0} → Server S → TopicManager S → Server S
with_tm s tm = record s { world = record s.world { tm = tm } }

module _ (wj : WriteJson) where
  -- One response.
  abbrev pub response_of : Client → WebSocketMessage → ℕ → String → Net → List Write
  response_of c msg code text net =
      written wj c (response (new_response msg code text nil)) net ∷ []

  -- The usual answer: the error with code 500, or, if it was asked for, code 200.
  abbrev pub answer_of : Client → WebSocketMessage → Result (Unit {0}) → Net → List Write
  answer_of c msg (err e) net = response_of c msg 500 e net
  answer_of c msg (ok _) net = if msg.require_ack then response_of c msg 200 "" net else []

-- The server after more writes.
abbrev pub wrote : {S : Type 0} → List Write → Server S → Server S
wrote ws s = record s { world = record s.world { net = s.world.net ++ ws } }

pub wrote-nil : {S : Type 0} (s : Server S) → s ≡ wrote [] s
wrote-nil s =
    ap (λ net. record s { world = record s.world { net = net } }) (sym (append-nil s.world.net))

module _ {S : Type 0} (storage : Storage S) (wj : WriteJson) (n : ℕ) (quiet : Answers wj) where
  abbrev pub answered : Client → WebSocketMessage → Result (Unit {0}) → Server S → Server S
  answered c msg r s = wrote (answer_of wj c msg r s.world.net) s

  pub acknowledge_lem :
      (c : Client) (msg : WebSocketMessage) (r : Result (Unit {0})) (s : Server S)
      → acknowledge storage (environs wj n) c msg r s ≡ done tt (answered c msg r s)
  unfolding acknowledge
  acknowledge_lem c msg (err e) s = send_succeeds wj n c _ s (quiet _ c _)
  acknowledge_lem c msg (ok u) s = elim (Bool-cases msg.require_ack) [
    | inl e ↦ rw e (send_succeeds wj n c _ s (quiet _ c _))
    | inr e ↦ rw e (ap (done tt) (wrote-nil s))
  ]

  -- From a server whose manager is in order the handler returns, with the usual answer to the promised
  -- result, a manager in order with the promised map, and nothing else changed.
  pub record Handled (h : HandlerFunc S) (c : Client) (msg : WebSocketMessage) (s : Server S)
      (r : Result (Unit {0}) × View) : Type 0 where
    pub tm : TopicManager S
    pub returns : h c msg s ≡ done tt (answered c msg r.0 (with_tm s tm))
    pub valid : IsValid tm
    pub sees : (x : String) → view tm x ≡ r.1 x
    pub keeps_topics : tm.topics ≡ s.world.tm.topics
    pub keeps_db : tm.db ≡ s.world.tm.db
    pub keeps_failed : tm.failed_clients ≡ s.world.tm.failed_clients

  module _ (c : Client) (msg : WebSocketMessage) (s : Server S) (v : IsValid s.world.tm) where
    passed_on :
        (m : Go (TopicManager S) (Result (Unit {0}))) (r : Result (Unit {0})) (w : View)
        (f : Refines m s.world.tm (r, w))
        → (on_manager m >>= acknowledge storage (environs wj n) c msg) s
          ≡ done tt (answered c msg r (with_tm s f.after))
    passed_on m r w f =
        bind_done (on_manager m) (acknowledge storage (environs wj n) c msg) s (with_tm s f.after) r
          (ground (arith, f.returns))
        ∙ acknowledge_lem c msg r (with_tm s f.after)

    -- From a server whose manager is in order and where responses are written without an error, the
    -- subscribe handler returns. The map of topics is as the specification of Subscribe has it; an
    -- error is answered with code 500, and success with code 200 if an acknowledgement was asked
    -- for; nothing else changes.
    pub subscribe_handler_lem :
        Handled
          (Handlers.subscribe_handler storage (environs wj n))
          c
          msg
          s
          (Spec.subscribe msg.topic c (view s.world.tm))
    unfolding Handlers.subscribe_handler
    subscribe_handler_lem =
        let f = subscribe_refines s.world.tm msg.topic c v in
        record {
          tm = f.after;
          returns = passed_on _ _ _ f;
          valid = f.valid;
          sees = f.sees;
          keeps_topics = f.keeps_topics;
          keeps_db = f.keeps_db;
          keeps_failed = f.keeps_failed;
        }

    -- From a server whose manager is in order and where responses are written without an error, the
    -- unsubscribe handler returns. The map of topics is as the specification of Unsubscribe has it;
    -- an error is answered with code 500, and success with code 200 if an acknowledgement was asked
    -- for; nothing else changes.
    pub unsubscribe_handler_lem :
        Handled
          (Handlers.unsubscribe_handler storage (environs wj n))
          c
          msg
          s
          (Spec.unsubscribe msg.topic c (view s.world.tm))
    unfolding Handlers.unsubscribe_handler
    unsubscribe_handler_lem =
        let f = unsubscribe_refines s.world.tm msg.topic c v in
        record {
          tm = f.after;
          returns = passed_on _ _ _ f;
          valid = f.valid;
          sees = f.sees;
          keeps_topics = f.keeps_topics;
          keeps_db = f.keeps_db;
          keeps_failed = f.keeps_failed;
        }

    -- From a server whose manager is in order and where responses are written without an error, the
    -- handler of unsubscribeAll returns. The client has left every topic; code 200 is answered if
    -- an acknowledgement was asked for; nothing else changes.
    pub unsubscribe_all_handler_lem :
        Handled
          (Handlers.unsubscribe_all_handler storage (environs wj n))
          c
          msg
          s
          (ok tt, (Spec.unsubscribe_all c (view s.world.tm)).1)
    unfolding Handlers.unsubscribe_all_handler
    unsubscribe_all_handler_lem =
        let f = unsubscribe_all_refines s.world.tm c v in
        record {
          tm = f.after;
          returns =
              bind_done (on_manager (Methods.unsubscribe_all c))
                (λ _. ack_response_success (environs wj n) c msg) s (with_tm s f.after) tt
                (ground (arith, f.returns))
              ∙ (unfold acknowledge in acknowledge_lem c msg (ok tt) (with_tm s f.after));
          valid = f.valid;
          sees = f.sees;
          keeps_topics = f.keeps_topics;
          keeps_db = f.keeps_db;
          keeps_failed = f.keeps_failed;
        }

    -- From a server whose manager is in order and where responses are written without an error, the
    -- handler of updateSchema returns for a message with data. The map of topics is as the
    -- specification of UpdateSchema has it; an error is answered with code 500, and success with
    -- code 200 if an acknowledgement was asked for; nothing else changes.
    pub update_schema_handler_lem :
        (value : Fields)
        → msg.parsed_data ≡ some value
        → Handled
            (Handlers.update_schema_handler storage (environs wj n))
            c
            msg
            s
            (Spec.update_schema msg.topic value (view s.world.tm))
    unfolding Handlers.update_schema_handler
    update_schema_handler_lem value e =
        let f = update_schema_refines s.world.tm msg.topic value v in
        record {
          tm = f.after;
          returns = simp e (passed_on _ _ _ f);
          valid = f.valid;
          sees = f.sees;
          keeps_topics = f.keeps_topics;
          keeps_db = f.keeps_db;
          keeps_failed = f.keeps_failed;
        }

  module _ (c : Client) (msg : WebSocketMessage) (s : Server S) where
    -- Where responses are written without an error, the handlers of updateSchema, registerTopic,
    -- publish and sendWithoutSave answer a message without data with code 400 and change nothing
    -- else.
    pub unparsed_lem :
        msg.parsed_data ≡ none
        → let refused = done tt (wrote (response_of wj c msg 400 unparsed s.world.net) s) in
          (Handlers.update_schema_handler storage (environs wj n) c msg s ≡ refused)
          × (Handlers.register_topic_handler storage (environs wj n) c msg s ≡ refused)
          × (Handlers.publish_handler storage (environs wj n) c msg s ≡ refused)
          × (Handlers.send_without_save_handler storage (environs wj n) c msg s ≡ refused)
    unfolding Handlers.update_schema_handler Handlers.register_topic_handler
        Handlers.publish_handler Handlers.send_without_save_handler
    unparsed_lem e =
        let sent =
          send_succeeds wj n c (response (new_response msg 400 unparsed nil)) s (quiet _ c _) in
        (
          ground (arith, e, sent),
          ground (arith, e, sent),
          ground (arith, e, sent),
          ground (arith, e, sent),
        )
