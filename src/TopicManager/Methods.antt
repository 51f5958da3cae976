-- ===== src/TopicManager/Methods.antt =====
-- The methods of server/internal/topic/topic_manager.go that do not write to clients: subscriptions,
-- the topics and their schemas, and stored values.
use data_loom.Common.{
  ℕ, String, ◌<>◌, Bool, true, Option, none, some, List, [], ◌∷◌, ◌++◌, map, Go, done, Result, ok,
  err, length, if◌then◌else◌, pure, gets, modify, zoom, ◌>>=◌, ◌>>◌, string_eq,
}
use data_loom.Common.GoMap
use data_loom.Schema.{Fields, schemas_match}
use data_loom.Logging.{r_lock, r_unlock, lock, unlock}
use data_loom.Network.{Client}
use data_loom.Storage.{Storage}
use data_loom.Topic
use data_loom.Topic.{Topic, TopicSchema}
use data_loom.TopicManager.{TopicManager, on_mu, on_topic, find_topic}

-- A method that only reads its topic.
abbrev pub reading : {A : Type 0} → (Topic → A) → Topic → A × Topic
reading f t = (f t, t)

abbrev pub writing : (Topic → Topic) → Topic → Unit {0} × Topic
writing f t = (tt, f t)

abbrev pub mismatch : String
mismatch = "cannot register topic, topic already exists with different schema. Try updating schema"

abbrev pub rename_error : String → Result TopicSchema → Result TopicSchema
rename_error topic_name (ok schema) = ok schema
rename_error topic_name (err e) = err ("could not get schema for topic with name: " <> topic_name)

-- The two maps are passed in the other order than by RegisterTopic.
abbrev pub compare_schemas : Fields → Result TopicSchema → Result Bool
compare_schemas schema (err e) = err e
compare_schemas schema (ok current) =
    if schemas_match schema current.schema
    then ok true
    else err "schema doesn't match topics current schema"

abbrev pub explain_get : Result (Option Fields) → Result (Option Fields)
explain_get (ok value) = ok value
explain_get (err e) = err ("couldn't get value for topic with error: " <> e)

abbrev pub explain_delete : Result (Unit {0}) → Result (Unit {0})
explain_delete (ok u) = ok u
explain_delete (err e) =
    err ("Topic deleted but unable to delete from persistent storage with err: " <> e)

module _ {S : Type 0} where
  unfoldable pub subscribe : String → Client → Go (TopicManager S) (Result (Unit {0}))
  subscribe topic_name client = do
    found ← find_topic topic_name
    elim found [
      | none ↦ pure (err ("topic doesn't exist for " <> topic_name))
      | some p ↦ (do on_topic p (writing (Topic.subscribe client)); pure (ok tt))
    ]

  unfoldable pub unsubscribe : String → Client → Go (TopicManager S) (Result (Unit {0}))
  unsubscribe topic_name client = do
    found ← find_topic topic_name
    elim found [
      | none ↦ pure (
          err (
            "cannot unsubscribe client from topic. topic doesn't exits. topic: " <> topic_name
            <> ", client: " <> client.id))
      | some p ↦ on_topic p (Topic.unsubscribe client)
    ]

  unfoldable pub list_subscribers_for_topic : String → Go (TopicManager S) (Result (List Client))
  list_subscribers_for_topic topic_name = do
    found ← find_topic topic_name
    elim found [
      | none ↦
          pure
            (err ("cannot get subscribers for topic. topic doesn't exist. Topic: " <> topic_name))
      | some p ↦ (do cs ← on_topic p (reading Topic.list_subscribers); pure (ok cs))
    ]

  -- The loop over the copied pointers, each error ignored.
  unfoldable pub unsubscribe_each : List ℕ → Client → Go (TopicManager S) (Unit {0})
  unsubscribe_each [] client = pure tt
  unsubscribe_each (p ∷ rest) client = do
    on_topic p (Topic.unsubscribe client)
    unsubscribe_each rest client

  -- The pointers in the map, copied under the read lock.
  unfoldable pub copy_topics : Go (TopicManager S) (List ℕ)
  unfolding r_lock r_unlock
  copy_topics = do on_mu r_lock; ps ← gets (λ tm. map (λ e. e.1) tm.topics); on_mu r_unlock; pure ps

  unfoldable pub unsubscribe_all : Client → Go (TopicManager S) (Unit {0})
  unsubscribe_all client = do topics_copy ← copy_topics; unsubscribe_each topics_copy client

  -- What RegisterTopic does with a topic that is there, by its latest schema.
  unfoldable pub register_existing :
      ℕ → Fields → Result TopicSchema → Go (TopicManager S) (Result ℕ)
  register_existing p schema (ok current) =
      if schemas_match current.schema schema then pure (ok p) else pure (err mismatch)
  register_existing p schema (err e) = do
    on_topic p (writing (Topic.update_schema schema))
    pure (ok p)

  -- The map is written with no lock held.
  unfoldable pub register_new : String → Fields → Go (TopicManager S) (Result ℕ)
  register_new topic_name schema tm = done (ok (length tm.heap)) (record tm {
    heap = tm.heap ++ Topic.new_topic topic_name schema ∷ [];
    topics = GoMap.put topic_name (length tm.heap) tm.topics;
  })

  unfoldable pub register_topic : String → Fields → Go (TopicManager S) (Result ℕ)
  unfolding register_existing register_new
  register_topic topic_name schema = do
    found ← find_topic topic_name
    elim found [
      | none ↦ register_new topic_name schema
      | some p ↦ (do
        current ← on_topic p Topic.get_latest_schema
        register_existing p schema current)
    ]

  unfoldable pub list_topics : Go (TopicManager S) (Result (List ℕ))
  unfolding copy_topics
  list_topics = do ps ← copy_topics; pure (ok ps)

  unfoldable pub update_schema : String → Fields → Go (TopicManager S) (Result (Unit {0}))
  update_schema topic_name schema = do
    found ← find_topic topic_name
    elim found [
      | none ↦
          pure (err ("cannot update schema for topic " <> topic_name <> ". Topic doesn't exist"))
      | some p ↦ (do on_topic p (writing (Topic.update_schema schema)); pure (ok tt))
    ]

  unfoldable pub get_latest_schema_for_topic : String → Go (TopicManager S) (Result TopicSchema)
  get_latest_schema_for_topic topic_name = do
    found ← find_topic topic_name
    elim found [
      | none ↦ pure (err ("could not get topic by name: " <> topic_name))
      | some p ↦ (do
        schema ← on_topic p Topic.get_latest_schema
        pure (rename_error topic_name schema))
    ]

  unfoldable pub is_schema_match : String → Fields → Go (TopicManager S) (Result Bool)
  unfolding get_latest_schema_for_topic
  is_schema_match topic_name schema = do
    current ← get_latest_schema_for_topic topic_name
    pure (compare_schemas schema current)

module _ {S : Type 0} (storage : Storage S) where
  abbrev pub on_db : {A : Type 0} → Go S A → Go (TopicManager S) A
  on_db = zoom (λ tm. tm.db) (λ d tm. record tm { db = d })

  -- The value is looked up under the name that the topic holds.
  unfoldable pub get : ℕ → String → Go (TopicManager S) (Result (Option Fields))
  get ctx topic_name = do
    found ← find_topic topic_name
    elim found [
      | none ↦
          pure (err ("couldn't get value for topic. topic doesn't exist. topic: " <> topic_name))
      | some p ↦ (do
        name ← on_topic p (reading (λ t. t.name))
        value ← on_db (storage.get ctx name)
        pure (explain_get value))
    ]

  -- The return on a missing topic leaves the write lock held.
  unfoldable pub unregister_topic : ℕ → String → Go (TopicManager S) (Result (Unit {0}))
  unfolding lock unlock
  unregister_topic ctx topic_name = do
    on_mu lock
    found ← gets (λ tm. GoMap.get topic_name tm.topics)
    elim found [
      | none ↦ pure (err ("cannot unregister topic. topic doesn't exist with name: " <> topic_name))
      | some _ ↦ (do
        modify (λ tm. record tm { topics = GoMap.delete topic_name tm.topics })
        on_mu unlock
        deleted ← on_db (storage.delete ctx topic_name)
        pure (explain_delete deleted))
    ]
