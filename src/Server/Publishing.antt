-- ===== src/Server/Publishing.antt =====
-- publishHandler and sendWithoutSaveHandler (server/internal/server/handlers.go): the schema check, the
-- writes and the goroutine that is left running.
use mathlib.Core.List.{append_assoc, map-append}
use data_loom.Common.{
  ℕ, String, ◌<>◌, ◌≡◌, refl, ap, ◌∙◌, Bool, true, false, Option, none, some, List, [], ◌∷◌, ◌++◌,
  map, arith, Outcome, done, Result, ok, err, length, set, bind_done,
}
use data_loom.Schema.{Fields}
use data_loom.Network.{Client, WebSocketMessage, response, nil, new_response, WriteJson, Net, Write}
use data_loom.Runtime.{Runtime, await, make_channel, make_context, spawn, cancel}
use data_loom.Storage.{Storage}
use data_loom.Topic
use data_loom.Topic.{Topic, TopicSchema}
use data_loom.TopicManager.Methods
use data_loom.TopicManager.Methods.{compare_schemas}
use data_loom.TopicManager.Publish
use data_loom.TopicManager.Publish.{World}
use data_loom.TopicManager.Valid.{view, IsValid}
use data_loom.TopicManager.Reads.{check_answer, is_schema_match_refines}
use data_loom.TopicManager.Refinement.{Refines}
use data_loom.TopicManager.Delivery.{send_topic_missing}
use data_loom.Server.{Server, Environs, on_manager}
use data_loom.Server.Handlers
use data_loom.Server.Handlers.{HandlerFunc, complain, publish_value, checked_publish}
use data_loom.Server.Sending.{send_succeeds}
use data_loom.Server.Answers.{
  Answers, environs, with_tm, response_of, wrote, wrote-nil, answered, acknowledge_lem,
}

-- SendWithoutSave and Publish have one handler: what it calls stores the value.
pub send_without_save-eq-publish :
    {S : Type 0} (storage : Storage S) (env : Environs) (c : Client) (msg : WebSocketMessage)
    (s : Server S)
    → Handlers.send_without_save_handler storage env c msg s
      ≡ Handlers.publish_handler storage env c msg s
unfolding Handlers.send_without_save_handler Handlers.publish_handler
send_without_save-eq-publish storage env c msg s = refl

compare_schemas-ne-false :
    (value : Fields) (r : Result TopicSchema) → compare_schemas value r ≡ ok false → ⊥
compare_schemas-ne-false value (err e) h = cc
compare_schemas-ne-false value (ok current) h = ground arith

-- The check never answers false without an error.
check_answer-ne-false :
    (n : String) (value : Fields) (o : Option Topic) → check_answer n value o ≡ ok false → ⊥
check_answer-ne-false n value none e = cc
check_answer-ne-false n value (some u) e =
    compare_schemas-ne-false value (Topic.get_latest_schema u).0 e

-- What the check leads to: a response of code 400 unless the data matches.
abbrev pub complaint_of : WriteJson → Client → WebSocketMessage → Result Bool → Net → List Write
complaint_of wj c msg (err e) net = response_of wj c msg 400 e net
complaint_of wj c msg (ok b) net = []

module _ {S : Type 0} (storage : Storage S) (wj : WriteJson) (n : ℕ) (quiet : Answers wj)
    (c : Client) (msg : WebSocketMessage) where
  abbrev complained : Result Bool → Server S → Server S
  complained r s = wrote (complaint_of wj c msg r s.world.net) s

  complain_lem :
      (r : Result Bool) (s : Server S)
      → (r ≡ ok false → ⊥)
      → complain storage (environs wj n) c msg r s ≡ done tt (complained r s)
  unfolding complain
  complain_lem (ok true) s h = ap (done tt) (wrote-nil s)
  complain_lem (ok false) s h = absurd (h refl)
  complain_lem (err e) s h = send_succeeds wj n c _ s (quiet _ c _)

  module _ (s : Server S) (v : IsValid s.world.tm) (value : Fields) where
    abbrev pub check : Result Bool
    check = check_answer msg.topic value (view s.world.tm msg.topic)

    abbrev pub checked :
        Refines (Methods.is_schema_match msg.topic value) s.world.tm (check, view s.world.tm)
    checked = is_schema_match_refines s.world.tm msg.topic v value

    -- The state in which the value is published: the check changes no more than a response.
    abbrev pub after_check : Server S
    after_check = complained check (with_tm s checked.after)

    check_lem :
        checked_publish storage (environs wj n) c msg (some value) s
        ≡ publish_value storage (environs wj n) c msg value after_check
    check_lem =
        bind_done (on_manager (Methods.is_schema_match msg.topic value)) _ s
          (with_tm s checked.after) check (ground (arith, checked.returns))
        ∙ bind_done (complain storage (environs wj n) c msg check) _ (with_tm s checked.after)
            after_check tt
            (complain_lem check _
              (check_answer-ne-false msg.topic value (view s.world.tm msg.topic)))

  module _ (s : Server S) (value : Fields) where
    -- The new context and the new channel.
    abbrev ctx : ℕ
    ctx = length s.world.runtime.contexts

    abbrev err_ch : ℕ
    err_ch = length s.world.runtime.channels

    -- The runtime with both, and with the goroutine that waits on them.
    abbrev pub launched : Runtime
    launched = record s.world.runtime {
      contexts = s.world.runtime.contexts ++ false ∷ [];
      channels =
          s.world.runtime.channels ++ record { capacity = 1; buffer = []; closed = false } ∷ [];
      goroutines = s.world.runtime.goroutines ++ await c msg err_ch ctx ∷ [];
    }

    -- The deferred cancel().
    abbrev pub cancelled : Server S → Server S
    cancelled t = record t {
      world = record t.world {
        runtime = record t.world.runtime { contexts = set t.world.runtime.contexts ctx true };
      };
    }

    -- publishHandler behind the check, by what Publish returns.
    pub publish_value_lem :
        (r : Result (Unit {0})) (w : World S)
        → Publish.publish storage wj ctx msg c value
            (some err_ch)
            (record s.world { runtime = launched })
          ≡ done r w
        → publish_value storage (environs wj n) c msg value s
          ≡ done tt (cancelled (answered storage wj n quiet c msg r (record s { world = w })))
    unfolding publish_value make_context make_channel spawn cancel
    publish_value_lem r w e =
        ground (arith, e, acknowledge_lem storage wj n quiet c msg r (record s { world = w }))

  module _ (s : Server S) (v : IsValid s.world.tm) (value : Fields)
      (parsed : msg.parsed_data ≡ some value) where
    abbrev pub handled : Outcome (Server S) (Unit {0})
    handled = Handlers.publish_handler storage (environs wj n) c msg s

    pub handled_lem :
        handled ≡ publish_value storage (environs wj n) c msg value (after_check s v value)
    unfolding Handlers.publish_handler
    handled_lem = simp parsed (check_lem s v value)

    -- The server in which Publish is called.
    abbrev pub before : Server S
    before = after_check s v value

    abbrev pub before_world : World S
    before_world = record before.world { runtime = launched before value }

    abbrev no_topic : String
    no_topic = "publish failed. Topic doesn't exist. Topic: " <> msg.topic

    abbrev no_schema : String
    no_schema = "could not get topic by name: " <> msg.topic

    abbrev refused : Server S
    refused =
        cancelled before value (
          answered storage wj n quiet c msg (err no_topic) (record before { world = before_world }))

    refused_lem : view s.world.tm msg.topic ≡ none → handled ≡ done tt refused
    refused_lem unseen =
        handled_lem
        ∙ publish_value_lem before value (err no_topic) before_world (
            unfold Publish.publish in
            send_topic_missing storage wj (ctx before value) msg c value true
              (some (err_ch before value)) before_world (checked s v value).valid
              ((checked s v value).sees msg.topic ∙ unseen))

    refused-messages :
        view s.world.tm msg.topic ≡ none
        → map (λ w. w.message) refused.world.net
          ≡ map (λ w. w.message) s.world.net
            ++ response (new_response msg 400 no_schema nil)
              ∷ response (new_response msg 500 no_topic nil)
              ∷ []
    refused-messages unseen = rw (unseen, append_assoc, map-append)

    -- A message with data for a topic that does not exist, at a server whose manager is in order
    -- and where responses are written without an error: the publish handler returns after two
    -- responses, of codes 400 and 500. It leaves the goroutine that waits for the storage, and
    -- changes neither a topic nor the storage.
    pub publish_to_missing :
        view s.world.tm msg.topic ≡ none
        → (s' : Server S) × (handled ≡ done tt s')
          × (map (λ w. w.message) s'.world.net
              ≡ map (λ w. w.message) s.world.net
                ++ response (new_response msg 400 no_schema nil)
                  ∷ response (new_response msg 500 no_topic nil)
                  ∷ [])
          × (s'.world.runtime.goroutines
              ≡ s.world.runtime.goroutines ++ await c msg (err_ch s value) (ctx s value) ∷ [])
          × ((x : String) → view s'.world.tm x ≡ view s.world.tm x)
          × (s'.world.tm.db ≡ s.world.tm.db)
          × IsValid s'.world.tm
          × (s'.hub ≡ s.hub)
    publish_to_missing unseen = (
      refused,
      refused_lem unseen,
      refused-messages unseen,
      refl,
      (checked s v value).sees,
      (checked s v value).keeps_db,
      (checked s v value).valid,
      refl,
    )
