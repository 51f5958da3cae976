-- ===== src/Server/Listing.antt =====
-- listTopicsHandler of server/internal/server/handlers.go: the loop over the copied pointers.
use data_loom.Common.{
  ℕ, String, ◌≡◌, refl, ap, Option, none, some, List, [], ◌∷◌, map, arith, done, string_eq, nat_eq,
}
use data_loom.Common.GoMap
use data_loom.Common.GoMap.{GoMap, Entries, Entries-of_Distinct}
use data_loom.Network.{
  Client, WebSocketMessage, TopicResponse, response, new_response, topic_list, WriteJson, written,
}
use data_loom.Storage.{Storage}
use data_loom.Topic
use data_loom.Topic.{Topic, TopicSchema}
use data_loom.Topic.Versions
use data_loom.TopicManager.{TopicManager}
use data_loom.TopicManager.Methods
use data_loom.TopicManager.Methods.{reading}
use data_loom.TopicManager.Valid.{View, view, IsValid, on_topic_reads}
use data_loom.TopicManager.UnsubscribeAll.{copy_topics_lem}
use data_loom.Server.{Server, ack_response_success_with_data}
use data_loom.Server.Handlers
use data_loom.Server.Handlers.{schema_response, describe_each}
use data_loom.Server.Sending.{send_succeeds}
use data_loom.Server.Answers.{Answers, environs, wrote}

-- How a topic is listed: its name, and its latest schema with the version.
abbrev pub described : String → Option Topic → TopicResponse
described n none = record { name = n; schema = record { version = 0; schema = none } }
described n (some t) = elim (GoMap.get t.latest_schema t.schemas) [
  | none ↦ record { name = n; schema = record { version = 0; schema = none } }
  | some s ↦ record {
    name = n;
    schema = record { version = t.latest_schema; schema = some s.schema };
  }
]

abbrev pub listed : View → GoMap String ℕ → List TopicResponse
listed w [] = []
listed w ((n, p) ∷ es) = described n (w n) ∷ listed w es

module _ {S : Type 0} where
  -- The loop only reads.
  walk :
      (es : GoMap String ℕ) (tm : TopicManager S)
      → IsValid tm
      → Entries es tm.topics
      → describe_each (map (λ e. e.1) es) tm ≡ done (listed (view tm) es) tm
  unfolding describe_each Topic.name_with_lock
  walk [] tm v h = refl
  walk ((n, p) ∷ es) tm v h =
      let (t, at, name, vt) = v.resolves n p h.0 in
      let (sc, e, number, cached) = Versions.get_latest_schema_valid t vt in
      let seen : view tm n ≡ some t = unfold view in rw h.0 at in
      ground (
        arith,
        seen,
        name,
        number,
        cached,
        e,
        on_topic_reads p Topic.get_latest_schema tm t at (ap (λ r. r.1) e),
        on_topic_reads p (reading Topic.name_with_lock) tm t at refl,
        walk es tm v h.1,
      )

module _ {S : Type 0} (storage : Storage S) (wj : WriteJson) (k : ℕ) (quiet : Answers wj)
    (c : Client) (msg : WebSocketMessage) (s : Server S) (v : IsValid s.world.tm) where
  -- From a server whose manager is in order and where responses are written without an error, the
  -- handler of listTopics returns after one response of code 200, which lists every name of the
  -- map, in its order, with the latest schema of its topic and that schema's version; nothing else
  -- changes.
  pub list_topics_handler_lem :
      Handlers.list_topics_handler storage (environs wj k) c msg s
      ≡ done tt (
          wrote
            (written wj c
                (response (
                  new_response msg 200 ""
                    (topic_list (listed (view s.world.tm) s.world.tm.topics))))
                s.world.net
              ∷ [])
            s)
  unfolding Handlers.list_topics_handler Methods.list_topics Topic.name_with_lock
      ack_response_success_with_data
  list_topics_handler_lem =
      let all =
        walk s.world.tm.topics s.world.tm v (Entries-of_Distinct s.world.tm.topics v.distinct) in
      ground (
        arith,
        copy_topics_lem s.world.tm v.free,
        all,
        send_succeeds wj k c
            (response
              (new_response msg 200 "" (topic_list (listed (view s.world.tm) s.world.tm.topics))))
            s (quiet _ c _),
      )
