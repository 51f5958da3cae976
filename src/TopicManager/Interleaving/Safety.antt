-- ===== src/TopicManager/Interleaving/Safety.antt =====
-- Calls of server/internal/topic/topic_manager.go in every order of their steps: no call blocks or
-- panics, and the manager stays in order.
use data_loom.Common.{
  ◌⊎◌, true, String, ◌≡◌, refl, subst, inl, inr, Option, List, ◌∷◌, ◌++◌, arith, Outcome, done,
  parked, panic, ◌==◌, Bool-cases, nat_eq, string_eq,
}
use data_loom.Common.GoMap
use data_loom.Common.GoMap.{GoMap, get-put, get-delete, get-empty, Entries, Entries-of_Distinct}
use data_loom.TopicManager.{TopicManager, new_topic_manager}
use data_loom.TopicManager.Valid.{IsValid}
use data_loom.TopicManager.Interleaving.{
  Call, Pending, subscribing, unsubscribing, leaving, updating, adding, assigning, writing_map,
  read_and_write, two_writes, begin_among, act_among, comparing, begin, act, System, Step, begins,
  acts, removes, Reach, start, later,
}
use data_loom.TopicManager.Interleaving.Pool.{
  Holds, AllHold, AllHold-grow, AllHold-split, AllHold-and_left, Pool, Pool-IsValid, Left, Ends,
}
use data_loom.TopicManager.Interleaving.Working.{act-Ends, begin-Ends}

module _ {S : Type 0} where
  Pool-remove :
      (tm : TopicManager S) (n : String)
      → Pool tm
      → Pool (record tm { topics = GoMap.delete n tm.topics })
  Pool-remove tm n v = record {
    free = v.free;
    all_valid = v.all_valid;
    named = λ m q e. elim (Bool-cases (n == m)) [
      | inl same ↦ absurd (ground (arith, get-delete n m tm.topics, e, same))
      | inr other ↦ v.named m q (ground (arith, get-delete n m tm.topics, e, other))
    ];
    distinct = GoMap.delete-Distinct n tm.topics v.distinct;
    bounded = v.bounded;
  }

  -- What is true of every system that is reached.
  record Sound (s : System S) : Type 0 where
    pool : Pool s.tm
    held : AllHold s.tm.heap s.pending

  -- The step that was taken is the one that the call takes.
  taken :
      (tm tm' : TopicManager S) (o : Outcome (TopicManager S) (Option Pending))
      (left : Option Pending)
      → o ≡ done left tm'
      → Ends (Left tm) o
      → Left tm left tm'
  taken tm tm' o left e h = subst (Ends (Left tm)) e h

  -- Whatever the call ends with, it returns.
  returns :
      {A : Type 0} (P : A → TopicManager S → Type 0) (o : Outcome (TopicManager S) A)
      → Ends P o
      → (a : A) × (tm' : TopicManager S) × (o ≡ done a tm')
  returns P (done a tm') h = (a, tm', refl)
  returns P (parked tm') h = absurd h
  returns P (panic e tm') h = absurd h

  -- A step that returns has not met a write.
  begun :
      (ps : List Pending) (call : Call) (tm tm' : TopicManager S) (left : Option Pending)
      → begin_among ps call tm ≡ done left tm'
      → begin call tm ≡ done left tm'
  begun ps call tm tm' left e = elim (Bool-cases (writing_map ps)) [
    | inl busy ↦ absurd (ground (arith, e, busy))
    | inr calm ↦ ground (arith, e, calm)
  ]

  acted :
      (ps : List Pending) (p : Pending) (tm tm' : TopicManager S) (left : Option Pending)
      → act_among ps p tm ≡ done left tm'
      → act p tm ≡ done left tm'
  acted ps (subscribing p c) tm tm' left e = e
  acted ps (unsubscribing p c) tm tm' left e = e
  acted ps (leaving qs c) tm tm' left e = e
  acted ps (updating p schema) tm tm' left e = e
  acted ps (comparing p schema) tm tm' left e = e
  acted ps (assigning n schema) tm tm' left e = e
  acted ps (adding n schema) tm tm' left e = elim (Bool-cases (writing_map ps)) [
    | inl busy ↦ absurd (ground (arith, e, busy))
    | inr calm ↦ ground (arith, e, calm)
  ]

  -- A step returns, or it meets a write and is fatal.
  abbrev pub ReturnsOrMeets :
      List Pending → String → Outcome (TopicManager S) (Option Pending) → TopicManager S → Type 0
  ReturnsOrMeets ps text o tm =
      ((left : Option Pending) × (tm' : TopicManager S) × (o ≡ done left tm'))
      ⊎ ((writing_map ps ≡ true) × (o ≡ panic text tm))

  begins_among :
      (ps : List Pending) (call : Call) (tm : TopicManager S)
      → Pool tm
      → ReturnsOrMeets ps read_and_write (begin_among ps call tm) tm
  begins_among ps call tm v = elim (Bool-cases (writing_map ps)) [
    | inl busy ↦ inr (busy, rw busy refl)
    | inr calm ↦
        let (left, tm', e) = returns (Left tm) (begin call tm) (begin-Ends call tm v) in
        inl (left, tm', rw calm e)
  ]

  acts_among :
      (ps : List Pending) (p : Pending) (tm : TopicManager S)
      → Pool tm
      → Holds tm.heap p
      → ReturnsOrMeets ps two_writes (act_among ps p tm) tm
  acts_among ps (adding n schema) tm v h = elim (Bool-cases (writing_map ps)) [
    | inl busy ↦ inr (busy, rw busy refl)
    | inr calm ↦
        let (left, tm', e) =
          returns (Left tm) (act (adding n schema) tm) (act-Ends (adding n schema) tm v h) in
        inl (left, tm', rw calm e)
  ]
  acts_among ps (subscribing p c) tm v h =
      inl (returns (Left tm) _ (act-Ends (subscribing p c) tm v h))
  acts_among ps (unsubscribing p c) tm v h =
      inl (returns (Left tm) _ (act-Ends (unsubscribing p c) tm v h))
  acts_among ps (leaving qs c) tm v h = inl (returns (Left tm) _ (act-Ends (leaving qs c) tm v h))
  acts_among ps (updating p schema) tm v h =
      inl (returns (Left tm) _ (act-Ends (updating p schema) tm v h))
  acts_among ps (comparing p schema) tm v h =
      inl (returns (Left tm) _ (act-Ends (comparing p schema) tm v h))
  acts_among ps (assigning n schema) tm v h =
      inl (returns (Left tm) _ (act-Ends (assigning n schema) tm v h))

  Step-Sound : (s t : System S) → Step s t → Sound s → Sound t
  Step-Sound s _ (begins call left tm' e) v =
      let (pool, grows, holds) =
        taken s.tm tm' _ left (begun s.pending call s.tm tm' left e)
          (begin-Ends call s.tm v.pool) in
      record {
        pool = pool;
        held =
            AllHold-and_left tm'.heap s.pending left
              (AllHold-grow s.tm.heap tm'.heap s.pending grows v.held) holds;
      }
  Step-Sound s _ (acts before after p left tm' split e) v =
      let (here, others) =
        AllHold-split s.tm.heap before after p (subst (AllHold s.tm.heap) split v.held) in
      let (pool, grows, holds) =
        taken s.tm tm' _ left (acted (before ++ after) p s.tm tm' left e)
          (act-Ends p s.tm v.pool here) in
      record {
        pool = pool;
        held =
            AllHold-and_left tm'.heap (before ++ after) left
              (AllHold-grow s.tm.heap tm'.heap (before ++ after) grows others) holds;
      }
  Step-Sound s _ (removes n p e calm) v = record { pool = Pool-remove s.tm n v.pool; held = v.held }

  Pool-new : (db : S) → Pool (new_topic_manager db)
  unfolding new_topic_manager
  Pool-new db = record {
    free = refl;
    all_valid = λ p t e. cc;
    named = λ n p e. absurd (unfold GoMap.get in cc e);
    distinct = tt;
    bounded = omega arith;
  }

  Reach-Sound : (s : System S) → Reach s → Sound s
  Reach-Sound _ (start db) = record { pool = Pool-new db; held = (unfold new_topic_manager in tt) }
  Reach-Sound _ (later s t r step) = Step-Sound s t step (Reach-Sound s r)

  -- Let calls of Subscribe, Unsubscribe, UnsubscribeAll, UpdateSchema and RegisterTopic run at once
  -- from a new manager, each as a lookup and then one step for each topic it works on, or two for
  -- RegisterTopic's write to the map, which holds no lock, with deletions of topics under the lock
  -- while none is writing, in any order of these steps. Whenever they have got, the manager is in
  -- order, each call that begins returns from its lookup, and the next step of each call under way
  -- returns, though its topic may have been unregistered; but while one call is writing the map, a
  -- lookup, or the begin of another write, may be fatal instead. No step blocks, or panics in
  -- another way.
  pub interleaved_calls_return :
      (s : System S)
      → Reach s
      → IsValid s.tm
        × ((call : Call)
            → ReturnsOrMeets s.pending read_and_write (begin_among s.pending call s.tm) s.tm)
        × ((before after : List Pending) (p : Pending)
            → s.pending ≡ before ++ p ∷ after
            → ReturnsOrMeets (before ++ after) two_writes (act_among (before ++ after) p s.tm) s.tm)
  interleaved_calls_return s r =
      let v = Reach-Sound s r in
      (
        Pool-IsValid s.tm v.pool,
        (λ call. begins_among s.pending call s.tm v.pool),
        λ before after p split.
            let (here, _) =
              AllHold-split s.tm.heap before after p (subst (AllHold s.tm.heap) split v.held) in
            acts_among (before ++ after) p s.tm v.pool here,
      )
