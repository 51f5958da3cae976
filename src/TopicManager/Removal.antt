-- ===== src/TopicManager/Removal.antt =====
-- UnregisterTopic of server/internal/topic/topic_manager.go, with a topic to remove and without.
use data_loom.Common.{
  ℕ, String, ◌<>◌, ◌≡◌, refl, sym, ◌∙◌, true, none, some, arith, Go, done, parked, Result, err,
  ◌==◌, if◌then◌else◌, string_eq, ◌>>=◌, pure,
}
use data_loom.Common.GoMap
use data_loom.Common.GoMap.{GoMap, get-delete}
use data_loom.Schema.{Fields}
use data_loom.Logging.{RwMutex, unlocked}
use data_loom.Network.{Client}
use data_loom.Storage.{Storage}
use data_loom.TopicManager.{TopicManager, find_topic}
use data_loom.TopicManager.Methods
use data_loom.TopicManager.Methods.{explain_delete}
use data_loom.TopicManager.Valid.{view, IsValid, Names, with_free}
use data_loom.TopicManager.Spec.{put_at}

abbrev locked : RwMutex
locked = record { writer = true; readers = 0 }

module _ {S : Type 0} (storage : Storage S) (ctx : ℕ) (n : String) where
  abbrev pub missing_text : String
  missing_text = "cannot unregister topic. topic doesn't exist with name: " <> n

  -- The state in which UnregisterTopic leaves a manager without the topic.
  abbrev pub stuck : TopicManager S → TopicManager S
  stuck tm = record tm { mu = locked }

  pub unregister_missing :
      (tm : TopicManager S)
      → tm.mu ≡ unlocked
      → GoMap.get n tm.topics ≡ none
      → Methods.unregister_topic storage ctx n tm ≡ done (err missing_text) (stuck tm)
  unfolding Methods.unregister_topic
  unregister_missing tm free e =
      with_free
        (λ x.
          GoMap.get n x.topics ≡ none
          → Methods.unregister_topic storage ctx n x ≡ done (err missing_text) (stuck x))
        tm free (λ e. ground arith) e

  abbrev pub removed : TopicManager S → S → TopicManager S
  removed tm db = record tm { topics = GoMap.delete n tm.topics; db = db }

  unregister_present :
      (tm : TopicManager S) (p : ℕ) (r : Result (Unit {0})) (db : S)
      → tm.mu ≡ unlocked
      → GoMap.get n tm.topics ≡ some p
      → storage.delete ctx n tm.db ≡ done r db
      → Methods.unregister_topic storage ctx n tm ≡ done (explain_delete r) (removed tm db)
  unfolding Methods.unregister_topic
  unregister_present tm p r db free e d =
      with_free
        (λ x.
          GoMap.get n x.topics ≡ some p
          → storage.delete ctx n x.db ≡ done r db
          → Methods.unregister_topic storage ctx n x ≡ done (explain_delete r) (removed x db))
        tm free (λ e d. ground arith) e d

  removed-Names :
      (tm : TopicManager S) (db : S) (m : String) (q : ℕ)
      → IsValid tm
      → GoMap.get m (removed tm db).topics ≡ some q
      → Names (removed tm db) m q
  removed-Names tm db m q v e =
      let e' : (if n == m then none else GoMap.get m tm.topics) ≡ some q =
        sym (get-delete n m tm.topics) ∙ e in
      v.resolves m q (ground arith)

  pub unregister_topic_removes :
      (tm : TopicManager S) (p : ℕ) (r : Result (Unit {0})) (db : S)
      → IsValid tm
      → GoMap.get n tm.topics ≡ some p
      → storage.delete ctx n tm.db ≡ done r db
      → (tm' : TopicManager S) × (Methods.unregister_topic storage ctx n tm
          ≡ done (explain_delete r) tm')
        × IsValid tm'
        × ((m : String) → view tm' m ≡ put_at n none (view tm) m)
        × (tm'.db ≡ db)
  unfolding view
  unregister_topic_removes tm p r db v e d = (
    removed tm db,
    unregister_present tm p r db v.free e d,
    record {
      free = v.free;
      resolves = λ m q h. removed-Names tm db m q v h;
      distinct = GoMap.delete-Distinct n tm.topics v.distinct;
      bounded = v.bounded;
    },
    λ m. rw get-delete (ground arith),
    refl,
  )

-- The methods that take the manager's lock, each as a call that may park.
pub data Call (S : Type 0) : Type 0 where
  subscribes unsubscribes : String → Client → Call S
  lists_subscribers gets_latest : String → Call S
  unsubscribes_all : Client → Call S
  registers updates matches : String → Fields → Call S
  lists_topics : Call S
  gets unregisters : ℕ → String → Call S

abbrev forget : {S A : Type 0} → Go S A → Go S (Unit {0})
forget m = m >>= λ _. pure tt

module _ {S : Type 0} (storage : Storage S) where
  pub call : Call S → Go (TopicManager S) (Unit {0})
  call (subscribes n c) = forget (Methods.subscribe n c)
  call (unsubscribes n c) = forget (Methods.unsubscribe n c)
  call (lists_subscribers n) = forget (Methods.list_subscribers_for_topic n)
  call (gets_latest n) = forget (Methods.get_latest_schema_for_topic n)
  call (unsubscribes_all c) = forget (Methods.unsubscribe_all c)
  call (registers n schema) = forget (Methods.register_topic n schema)
  call (updates n schema) = forget (Methods.update_schema n schema)
  call (matches n schema) = forget (Methods.is_schema_match n schema)
  call lists_topics = forget Methods.list_topics
  call (gets ctx n) = forget (Methods.get storage ctx n)
  call (unregisters ctx n) = forget (Methods.unregister_topic storage ctx n)

  call_stuck :
      (tm : TopicManager S) (c : Call S)
      → call c (record tm { mu = locked }) ≡ parked (record tm { mu = locked })
  unfolding call Methods.subscribe Methods.unsubscribe Methods.list_subscribers_for_topic
      Methods.get_latest_schema_for_topic Methods.unsubscribe_all Methods.register_topic
      Methods.update_schema Methods.is_schema_match Methods.list_topics Methods.get
      Methods.unregister_topic find_topic
  call_stuck tm (subscribes n c) = refl
  call_stuck tm _ = refl

  -- From a manager in order without the topic, UnregisterTopic returns an error and leaves the
  -- manager's lock held: from then on every call that takes that lock parks, changing nothing.
  pub unregister_missing_parks :
      (tm : TopicManager S) (ctx : ℕ) (n : String)
      → IsValid tm
      → GoMap.get n tm.topics ≡ none
      → (text : String) × (tm' : TopicManager S) × (Methods.unregister_topic storage ctx n tm
          ≡ done (err text) tm')
        × ((c : Call S) → call c tm' ≡ parked tm')
  unregister_missing_parks tm ctx n v e =
      (_, _, unregister_missing storage ctx n tm v.free e, call_stuck tm)
