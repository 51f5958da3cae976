-- ===== src/TopicManager/Reachable.antt =====
-- The managers that sequences of calls lead to, over server/internal/topic/topic_manager.go.
use data_loom.Common.{
  ℕ, String, ◌≡◌, ap, sym, subst, ◌∙◌, some, Outcome, done, parked, panic, Result, string_eq,
}
use data_loom.Common.GoMap
use data_loom.Schema.{Fields}
use data_loom.Network.{Client}
use data_loom.Storage.{Storage}
use data_loom.TopicManager.{TopicManager, new_topic_manager}
use data_loom.TopicManager.Methods
use data_loom.TopicManager.Valid.{IsValid, IsValid-new}
use data_loom.TopicManager.Refinement.{
  subscribe_refines, unsubscribe_refines, update_schema_refines,
}
use data_loom.TopicManager.UnsubscribeAll.{unsubscribe_all_refines}
use data_loom.TopicManager.Registration.{register_topic_refines}
use data_loom.TopicManager.Removal.{unregister_topic_removes}

-- One call that returns, with any answer; UnregisterTopic only of a topic that is there, and where
-- the storage's Delete returns.
pub data Step {S : Type 0} (storage : Storage S) : TopicManager S → TopicManager S → Type 0 where
  subscribes :
      (tm tm' : TopicManager S) (n : String) (c : Client) (r : Result (Unit {0}))
      → Methods.subscribe n c tm ≡ done r tm'
      → Step storage tm tm'
  unsubscribes :
      (tm tm' : TopicManager S) (n : String) (c : Client) (r : Result (Unit {0}))
      → Methods.unsubscribe n c tm ≡ done r tm'
      → Step storage tm tm'
  unsubscribes_all :
      (tm tm' : TopicManager S) (c : Client)
      → Methods.unsubscribe_all c tm ≡ done tt tm'
      → Step storage tm tm'
  registers :
      (tm tm' : TopicManager S) (n : String) (schema : Fields) (r : Result ℕ)
      → Methods.register_topic n schema tm ≡ done r tm'
      → Step storage tm tm'
  updates :
      (tm tm' : TopicManager S) (n : String) (schema : Fields) (r : Result (Unit {0}))
      → Methods.update_schema n schema tm ≡ done r tm'
      → Step storage tm tm'
  unregisters :
      (tm tm' : TopicManager S) (ctx : ℕ) (n : String) (p : ℕ) (d r : Result (Unit {0})) (db : S)
      → GoMap.get n tm.topics ≡ some p
      → storage.delete ctx n tm.db ≡ done d db
      → Methods.unregister_topic storage ctx n tm ≡ done r tm'
      → Step storage tm tm'

pub data Reached {S : Type 0} (storage : Storage S) : TopicManager S → Type 0 where
  start : (db : S) → Reached storage (new_topic_manager db)
  later : (tm tm' : TopicManager S) → Reached storage tm → Step storage tm tm' → Reached storage tm'

abbrev state_of : {S A : Type 0} → Outcome S A → S
state_of (done a s) = s
state_of (parked s) = s
state_of (panic e s) = s

module _ {S : Type 0} (storage : Storage S) where
  -- A call that returns leaves the state that its theorem names.
  same_state :
      {A : Type 0} (o : Outcome (TopicManager S) A) (a b : A) (tm1 tm2 : TopicManager S)
      → o ≡ done a tm1
      → o ≡ done b tm2
      → IsValid tm1
      → IsValid tm2
  same_state o a b tm1 tm2 e f v = subst IsValid (ap state_of (sym e ∙ f)) v

  Step-IsValid : (tm tm' : TopicManager S) → Step storage tm tm' → IsValid tm → IsValid tm'
  Step-IsValid _ _ (subscribes tm tm' n c r e) v =
      let f = subscribe_refines tm n c v in same_state _ _ _ _ _ f.returns e f.valid
  Step-IsValid _ _ (unsubscribes tm tm' n c r e) v =
      let f = unsubscribe_refines tm n c v in same_state _ _ _ _ _ f.returns e f.valid
  Step-IsValid _ _ (unsubscribes_all tm tm' c e) v =
      let f = unsubscribe_all_refines tm c v in same_state _ _ _ _ _ f.returns e f.valid
  Step-IsValid _ _ (registers tm tm' n schema r e) v =
      let f = register_topic_refines n schema tm v in same_state _ _ _ _ _ f.returns e f.valid
  Step-IsValid _ _ (updates tm tm' n schema r e) v =
      let f = update_schema_refines tm n schema v in same_state _ _ _ _ _ f.returns e f.valid
  Step-IsValid _ _ (unregisters tm tm' ctx n p d r db found deleted e) v =
      let (tm1, returns, valid, _, _) =
        unregister_topic_removes storage ctx n tm p d db v found deleted in
      same_state _ _ _ _ _ returns e valid

  -- Every manager that a new one becomes by a sequence of returned calls of Subscribe, Unsubscribe,
  -- UnsubscribeAll, RegisterTopic and UpdateSchema, and of UnregisterTopic for a topic that is
  -- there and where the storage's Delete returns, is in order: its lock is free, each name leads to
  -- a well-formed topic of that name, no name stands twice, and the queue of failed clients is
  -- within its capacity.
  pub Reached-IsValid : (tm : TopicManager S) → Reached storage tm → IsValid tm
  Reached-IsValid _ (start db) = IsValid-new db
  Reached-IsValid _ (later tm tm' h step) = Step-IsValid tm tm' step (Reached-IsValid tm h)
