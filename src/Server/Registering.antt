-- ===== src/Server/Registering.antt =====
-- registerTopicHandler: what it answers, and what it changes.
use data_loom.Common.{
  ℕ, String, ◌≡◌, ap, ◌∙◌, some, List, [], ◌∷◌, arith, done, Result, ok, err, if◌then◌else◌,
  bind_done, Bool-cases, inl, inr,
}
use data_loom.Schema.{Fields}
use data_loom.Network.{
  Client, WebSocketMessage, response, new_response, topic_ref, WriteJson, Net, Write, written,
}
use data_loom.Storage.{Storage}
use data_loom.TopicManager.{TopicManager}
use data_loom.TopicManager.Methods
use data_loom.TopicManager.Valid.{view, IsValid}
use data_loom.TopicManager.Spec
use data_loom.TopicManager.Registration.{outcome, register_topic_refines}
use data_loom.Server.{Server, on_manager, ack_response_success_with_data, ack_response_error}
use data_loom.Server.Handlers
use data_loom.Server.Handlers.{answer_register}
use data_loom.Server.Sending.{send_succeeds}
use data_loom.Server.Answers.{Answers, environs, with_tm, response_of, wrote, wrote-nil}

-- The error with code 500, or, if it was asked for, code 200 with the topic.
abbrev pub registered_answer : WriteJson → Client → WebSocketMessage → Result ℕ → Net → List Write
registered_answer wj c msg (err e) net = response_of wj c msg 500 e net
registered_answer wj c msg (ok p) net =
    if msg.require_ack
    then written wj c (response (new_response msg 200 "" (topic_ref p))) net ∷ []
    else []

module _ {S : Type 0} (storage : Storage S) (wj : WriteJson) (n : ℕ) (quiet : Answers wj)
    (c : Client) (msg : WebSocketMessage) where
  answer_lem :
      (r : Result ℕ) (s : Server S)
      → answer_register storage (environs wj n) c msg r s
        ≡ done tt (wrote (registered_answer wj c msg r s.world.net) s)
  unfolding ack_response_success_with_data ack_response_error
  answer_lem (err e) s = send_succeeds wj n c _ s (quiet _ c _)
  answer_lem (ok p) s = elim (Bool-cases msg.require_ack) [
    | inl e ↦ rw e (send_succeeds wj n c _ s (quiet _ c _))
    | inr e ↦ rw e (ap (done tt) (wrote-nil s))
  ]

  module _ (s : Server S) (v : IsValid s.world.tm) (value : Fields) where
    -- From a server whose manager is in order and where responses are written without an error, the
    -- handler of registerTopic returns for a message with data. The map of topics is as the
    -- specification of RegisterTopic has it; an error is answered with code 500, and success with
    -- code 200 and the topic if an acknowledgement was asked for; the manager is in order.
    pub register_topic_handler_lem :
        msg.parsed_data ≡ some value
        → (tm : TopicManager S) × (r : Result ℕ) × (Handlers.register_topic_handler storage
              (environs wj n)
              c
              msg
              s
            ≡ done tt (wrote (registered_answer wj c msg r s.world.net) (with_tm s tm)))
          × (outcome r ≡ (Spec.register_topic msg.topic value (view s.world.tm)).0)
          × ((x : String) → view tm x ≡ (Spec.register_topic msg.topic value (view s.world.tm)).1 x)
          × IsValid tm
          × (tm.db ≡ s.world.tm.db)
    unfolding Handlers.register_topic_handler
    register_topic_handler_lem e =
        let f = register_topic_refines msg.topic value s.world.tm v in
        let answered =
          bind_done (on_manager (Methods.register_topic msg.topic value))
            (answer_register storage (environs wj n) c msg) s (with_tm s f.after) f.result
            (ground (arith, f.returns))
          ∙ answer_lem f.result (with_tm s f.after) in
        (f.after, f.result, simp e answered, f.promised, f.sees, f.valid, f.keeps_db)
