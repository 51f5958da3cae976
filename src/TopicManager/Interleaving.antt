-- ===== src/TopicManager/Interleaving.antt =====
-- Calls of server/internal/topic/topic_manager.go that run at the same time. A call looks its topic up
-- under the manager's lock, and works on the topic under the topic's own lock later: between the two,
-- other calls take their steps. RegisterTopic writes the map with no lock held: the write begins in one
-- step and ends in another, and Go's runtime, which stops the program where it sees a map used while it
-- is written, is taken to see it each time.
pub mod Pool
pub mod Working
pub mod Safety
pub mod Races
use mathlib.Core.Option
use data_loom.Common.{
  Bool, true, false, if◌then◌else◌, ℕ, zero, suc, ◌+◌, String, ◌≡◌, Option, none, some, List, [],
  ◌∷◌, ◌++◌, Go, Outcome, done, parked, panic, Result, ok, err, length, pure, ◌>>=◌, ◌>>◌,
  string_eq,
}
use data_loom.Common.GoMap
use data_loom.Schema.{Fields}
use data_loom.Network.{Client}
use data_loom.Topic
use data_loom.Topic.{TopicSchema}
use data_loom.TopicManager.{TopicManager, new_topic_manager, on_topic, find_topic}
use data_loom.TopicManager.Methods.{writing, copy_topics, register_new}

pub data Call : Type 0 where
  subscribe : String → Client → Call
  unsubscribe : String → Client → Call
  unsubscribe_all : Client → Call
  update_schema : String → Fields → Call
  register_topic : String → Fields → Call

-- A call between two of its steps, with the pointers that it holds.
pub data Pending : Type 0 where
  subscribing : ℕ → Client → Pending
  unsubscribing : ℕ → Client → Pending
  leaving : List ℕ → Client → Pending
  updating : ℕ → Fields → Pending
  -- RegisterTopic, of a name that was missing, and of one that was there
  adding : String → Fields → Pending
  -- RegisterTopic, in the middle of its write to the map
  assigning : String → Fields → Pending
  comparing : ℕ → Fields → Pending

abbrev pub none_or : {A : Type 0} → (A → Pending) → Option A → Option Pending
none_or f none = none
none_or f (some a) = some (f a)

abbrev pub added_or_compared : String → Fields → Option ℕ → Pending
added_or_compared n schema none = adding n schema
added_or_compared n schema (some p) = comparing p schema

-- What RegisterTopic has left to do, after GetLatestSchema.
abbrev pub unless_found : ℕ → Fields → Result TopicSchema → Option Pending
unless_found p schema (ok current) = none
unless_found p schema (err e) = some (updating p schema)

module _ {S : Type 0} where
  -- The first step; a call that has nothing to work on ends with it.
  unfoldable pub begin : Call → Go (TopicManager S) (Option Pending)
  unfolding find_topic copy_topics
  begin (subscribe n c) = do found ← find_topic n; pure (none_or (λ p. subscribing p c) found)
  begin (unsubscribe n c) = do found ← find_topic n; pure (none_or (λ p. unsubscribing p c) found)
  begin (unsubscribe_all c) = do ps ← copy_topics; pure (some (leaving ps c))
  begin (update_schema n schema) = do
    found ← find_topic n
    pure (none_or (λ p. updating p schema) found)
  begin (register_topic n schema) = do
    found ← find_topic n
    pure (some (added_or_compared n schema found))

  -- The next step, and what is left of the call.
  unfoldable pub act : Pending → Go (TopicManager S) (Option Pending)
  unfolding on_topic register_new
  act (subscribing p c) = do on_topic p (writing (Topic.subscribe c)); pure none
  act (unsubscribing p c) = do on_topic p (Topic.unsubscribe c); pure none
  act (leaving [] c) = pure none
  act (leaving (p ∷ ps) c) = do on_topic p (Topic.unsubscribe c); pure (some (leaving ps c))
  act (updating p schema) = do on_topic p (writing (Topic.update_schema schema)); pure none
  act (adding n schema) = pure (some (assigning n schema))
  act (assigning n schema) = do register_new n schema; pure none
  act (comparing p schema) = do
    current ← on_topic p Topic.get_latest_schema
    pure (unless_found p schema current)

-- Whether one of the calls is writing the map.
abbrev pub writing_map : List Pending → Bool
writing_map [] = false
writing_map (assigning n schema ∷ ps) = true
writing_map (_ ∷ ps) = writing_map ps

abbrev pub read_and_write : String
read_and_write = "fatal error: concurrent map read and map write"

abbrev pub two_writes : String
two_writes = "fatal error: concurrent map writes"

module _ {S : Type 0} where
  -- A call's first step, which reads the map, among the calls under way.
  abbrev pub begin_among : List Pending → Call → Go (TopicManager S) (Option Pending)
  begin_among ps call = if writing_map ps then panic read_and_write else begin call

  -- A call's next step among the other calls under way. Only the begin of a write uses the map.
  abbrev pub act_among : List Pending → Pending → Go (TopicManager S) (Option Pending)
  act_among ps (adding n schema) =
      if writing_map ps then panic two_writes else act (adding n schema)
  act_among ps p = act p

-- The manager, and the calls under way.
pub record System (S : Type 0) : Type 0 where
  pub tm : TopicManager S
  pub pending : List Pending

abbrev pub and_left : List Pending → Option Pending → List Pending
and_left ps none = ps
and_left ps (some p) = ps ++ p ∷ []

-- One step of one call, whichever; or of UnregisterTopic, under the lock, for a topic that is there.
pub data Step {S : Type 0} (s : System S) : System S → Type 0 where
  begins :
      (call : Call) (left : Option Pending) (tm' : TopicManager S)
      → begin_among s.pending call s.tm ≡ done left tm'
      → Step s (record { tm = tm'; pending = and_left s.pending left })
  acts :
      (before after : List Pending) (p : Pending) (left : Option Pending) (tm' : TopicManager S)
      → s.pending ≡ before ++ p ∷ after
      → act_among (before ++ after) p s.tm ≡ done left tm'
      → Step s (record { tm = tm'; pending = and_left (before ++ after) left })
  removes :
      (n : String) (p : ℕ)
      → GoMap.get n s.tm.topics ≡ some p
      → writing_map s.pending ≡ false
      → Step s (record s { tm = record s.tm { topics = GoMap.delete n s.tm.topics } })

pub data Reach {S : Type 0} : System S → Type 0 where
  start : (db : S) → Reach (record { tm = new_topic_manager db; pending = [] })
  later : (s t : System S) → Reach s → Step s t → Reach t
