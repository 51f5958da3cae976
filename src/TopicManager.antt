-- ===== src/TopicManager.antt =====
-- server/internal/topic/topic_manager.go. A topic is a pointer: `heap` is what was ever allocated,
-- and `topics` maps a name to an address in it. The manager's lock is a part of the state, since
-- not every path releases it.
pub mod Methods
pub mod Publish
pub mod Valid
pub mod Spec
pub mod Refinement
pub mod UnsubscribeAll
pub mod Registration
pub mod Removal
pub mod Reads
pub mod Delivery
pub mod Reachable
pub mod Subscriptions
pub mod Flat
pub mod Interleaving
use data_loom.Common.{
  ℕ, String, ◌<>◌, Bool, true, false, Option, none, some, List, [], ◌∷◌, ◌++◌, map, Go, Outcome,
  done, parked, panic, Result, ok, err, length, get_elem?, set, ltb, if◌then◌else◌, pure, gets,
  modify, zoom, ◌>>=◌, ◌>>◌, string_eq,
}
use data_loom.Common.GoMap
use data_loom.Common.GoMap.{GoMap}
use data_loom.Schema.{Fields, obj, schemas_match}
use data_loom.Logging.{RwMutex, unlocked, r_lock, r_unlock, lock, unlock}
use data_loom.Network.{Client, WebSocketMessage, encoded, Net, WriteJson}
use data_loom.Runtime.{Runtime, make_channel, close, spawn, forward}
use data_loom.Storage.{Storage, Stored}
use data_loom.Topic
use data_loom.Topic.{Topic, TopicSchema}

pub record TopicManager (S : Type 0) : Type 0 where
  pub mu : RwMutex
  pub topics : GoMap String ℕ
  pub heap : List Topic
  pub db : S
  pub failed_clients : List Client

-- The capacity of the channel of failed clients.
abbrev pub failed_capacity : ℕ
failed_capacity = 100

unfoldable pub new_topic_manager : {S : Type 0} → S → TopicManager S
new_topic_manager storage = record {
  mu = unlocked;
  topics = [];
  heap = [];
  db = storage;
  failed_clients = [];
}

module _ {S : Type 0} where
  abbrev pub on_mu : Go RwMutex (Unit {0}) → Go (TopicManager S) (Unit {0})
  on_mu = zoom (λ tm. tm.mu) (λ m tm. record tm { mu = m })

  abbrev pub read_topic : Option Topic → Go (TopicManager S) Topic
  read_topic (some t) tm = done t tm
  read_topic none tm = panic "invalid memory address or nil pointer dereference" tm

  -- A method of the topic at an address, on the topic's new state.
  unfoldable pub on_topic : {A : Type 0} → ℕ → (Topic → A × Topic) → Go (TopicManager S) A
  on_topic p method tm =
      (do
        t ← read_topic (get_elem? tm.heap p)
        let (a, t') = method t
        modify (λ m. record m { heap = set m.heap p t' })
        pure a)
        tm

  -- The lookup under the read lock, with which most methods begin.
  unfoldable pub find_topic : String → Go (TopicManager S) (Option ℕ)
  unfolding r_lock r_unlock
  find_topic name = do
    on_mu r_lock
    found ← gets (λ tm. GoMap.get name tm.topics)
    on_mu r_unlock
    pure found

  unfoldable pub mark_client_failed : Client → Go (TopicManager S) (Unit {0})
  mark_client_failed c = modify λ tm.
      if ltb (length tm.failed_clients) failed_capacity
      then record tm { failed_clients = tm.failed_clients ++ c ∷ [] }
      else tm

  abbrev receive_failed : List Client → Go (TopicManager S) (Client × Bool)
  receive_failed [] tm = parked tm
  receive_failed (c ∷ rest) tm = done (c, true) (record tm { failed_clients = rest })

  -- The channel is never closed, so a receive waits for a client.
  unfoldable pub next_failed_client : Go (TopicManager S) (Client × Bool)
  next_failed_client tm = receive_failed tm.failed_clients tm
