-- ===== src/TopicManager/Interleaving/Working.antt =====
-- Each step of a call of server/internal/topic/topic_manager.go returns, and keeps the pool of topics.
use data_loom.Common.{
  ℕ, String, ◌≡◌, refl, sym, subst, inl, inr, Option, none, some, List, [], ◌∷◌, ◌++◌, map, arith,
  Go, done, Result, ok, err, length, get_elem?, get_elem?-append_last, get_elem?-append_left,
  get_elem?-append_cases, ◌==◌, ==_iff, Bool-cases, nat_eq, string_eq, pure, ◌>>=◌, bind_done,
}
use data_loom.Common.GoMap
use data_loom.Common.GoMap.{GoMap, get-put, get-delete, get-empty, Entries, Entries-of_Distinct}
use data_loom.Schema.{Fields}
use data_loom.Topic
use data_loom.Topic.{Topic, TopicSchema}
use data_loom.Topic.Versions
use data_loom.TopicManager.{TopicManager, find_topic}
use data_loom.TopicManager.Methods.{writing, copy_topics, register_new}
use data_loom.TopicManager.Valid.{find_topic_lem}
use data_loom.TopicManager.UnsubscribeAll.{copy_topics_lem}
use data_loom.TopicManager.Interleaving.{
  Call, subscribe, unsubscribe, unsubscribe_all, update_schema, register_topic, Pending,
  subscribing, unsubscribing, leaving, updating, adding, assigning, comparing, none_or,
  added_or_compared, unless_found, begin, act,
}
use data_loom.TopicManager.Interleaving.Pool.{
  Points, AllPoint, Holds, HoldsLeft, Grows, AllPoint-grow, Pool, subscribe-Keeps,
  unsubscribe-Keeps, update_schema-Keeps, get_latest_schema-Keeps, Left, Ends, topic_step,
}

module _ {S : Type 0} where
  -- A call behind one that returns.
  Ends-after :
      {A B : Type 0} (P : B → TopicManager S → Type 0) (m : Go (TopicManager S) A)
      (f : A → Go (TopicManager S) B) (tm tm' : TopicManager S) (a : A)
      → m tm ≡ done a tm'
      → Ends P (f a tm')
      → Ends P ((m >>= f) tm)
  Ends-after P m f tm tm' a e = subst (Ends P) (sym (bind_done m f tm tm' a e))

  -- A new name's topic is allocated behind the others.
  adds :
      (tm : TopicManager S) (n : String) (schema : Fields)
      → Pool tm
      → Ends (Left tm) ((register_new n schema >>= λ _. pure none) tm)
  unfolding register_new
  adds tm n schema v =
      let new = Topic.new_topic n schema in
      let old : Grows tm.heap (tm.heap ++ new ∷ []) =
        λ p (t, at). (t, get_elem?-append_left tm.heap (new ∷ []) p t at) in
      (
        record {
          free = v.free;
          all_valid = λ p t e. elim (get_elem?-append_cases tm.heap new p t e) [
            | inl before ↦ v.all_valid p t before
            | inr last ↦ subst Versions.IsValid last (Versions.new_topic-IsValid n schema)
          ];
          named = λ m q e. elim (Bool-cases (n == m)) [
            | inl same ↦
                let here : length tm.heap ≡ q =
                  ground (arith, get-put n m (length tm.heap) tm.topics, e, same) in
                (
                  new,
                  subst (λ x. get_elem? (tm.heap ++ new ∷ []) x ≡ some new) here
                      (get_elem?-append_last tm.heap new),
                  (unfold Topic.new_topic in (==_iff n m).0 same),
                )
            | inr other ↦
                let (t, at, name) =
                  v.named m q (ground (arith, get-put n m (length tm.heap) tm.topics, e, other)) in
                (t, get_elem?-append_left tm.heap (new ∷ []) q t at, name)
          ];
          distinct = GoMap.put-Distinct n (length tm.heap) tm.topics v.distinct;
          bounded = v.bounded;
        },
        old,
        tt,
      )

  pub act-Ends :
      (p : Pending) (tm : TopicManager S) → Pool tm → Holds tm.heap p → Ends (Left tm) (act p tm)
  unfolding act
  act-Ends (subscribing p c) tm v h =
      topic_step tm p (writing (Topic.subscribe c)) (λ _. none) v (subscribe-Keeps c) h
        (λ a k g. tt)
  act-Ends (unsubscribing p c) tm v h =
      topic_step tm p (Topic.unsubscribe c) (λ _. none) v (unsubscribe-Keeps c) h (λ a k g. tt)
  act-Ends (leaving [] c) tm v h = (v, (λ q a. a), tt)
  act-Ends (leaving (p ∷ ps) c) tm v h =
      topic_step tm p (Topic.unsubscribe c) (λ _. some (leaving ps c)) v (unsubscribe-Keeps c) h.0
        (λ a k g. AllPoint-grow tm.heap k ps g h.1)
  act-Ends (updating p schema) tm v h =
      topic_step tm p (writing (Topic.update_schema schema)) (λ _. none) v
        (update_schema-Keeps schema) h (λ a k g. tt)
  act-Ends (adding n schema) tm v h = (v, (λ q a. a), tt)
  act-Ends (assigning n schema) tm v h = adds tm n schema v
  act-Ends (comparing p schema) tm v h =
      topic_step tm p Topic.get_latest_schema (unless_found p schema) v get_latest_schema-Keeps h
        (left_holds tm p schema h)
    where
      left_holds :
          (tm : TopicManager S) (p : ℕ) (schema : Fields)
          → Points tm.heap p
          → (r : Result TopicSchema) (k : List Topic) → Grows tm.heap k
          → HoldsLeft k (unless_found p schema r)
      left_holds tm p schema h (ok current) k g = tt
      left_holds tm p schema h (err e) k g = g p h

  -- What the first step finds.
  found-Ends :
      (tm : TopicManager S) (n : String) (left : Option ℕ → Option Pending)
      → Pool tm
      → ((o : Option ℕ) → GoMap.get n tm.topics ≡ o → HoldsLeft tm.heap (left o))
      → Ends (Left tm) ((find_topic n >>= λ found. pure (left found)) tm)
  found-Ends tm n left v holds =
      Ends-after (Left tm) (find_topic n) _ tm tm _ (find_topic_lem n tm v.free)
        (v, (λ q a. a), holds _ refl)

  if_found :
      (tm : TopicManager S) (n : String) (f : ℕ → Pending)
      → Pool tm
      → ((p : ℕ) → Points tm.heap p → Holds tm.heap (f p))
      → (o : Option ℕ) → GoMap.get n tm.topics ≡ o
      → HoldsLeft tm.heap (none_or f o)
  if_found tm n f v h none e = tt
  if_found tm n f v h (some p) e = let (t, at, _) = v.named n p e in h p (t, at)

  all_named :
      (tm : TopicManager S) (v : Pool tm) (es : GoMap String ℕ)
      → Entries es tm.topics
      → AllPoint tm.heap (map (λ e. e.1) es)
  all_named tm v [] h = tt
  all_named tm v ((n, p) ∷ es) h =
      let (t, at, _) = v.named n p h.0 in ((t, at), all_named tm v es h.1)

  pub begin-Ends : (call : Call) (tm : TopicManager S) → Pool tm → Ends (Left tm) (begin call tm)
  unfolding begin
  begin-Ends (subscribe n c) tm v =
      found-Ends tm n (none_or (λ p. subscribing p c)) v (if_found tm n _ v (λ p h. h))
  begin-Ends (unsubscribe n c) tm v =
      found-Ends tm n (none_or (λ p. unsubscribing p c)) v (if_found tm n _ v (λ p h. h))
  begin-Ends (unsubscribe_all c) tm v =
      Ends-after (Left tm) copy_topics _ tm tm _ (copy_topics_lem tm v.free)
        (v, (λ q a. a), all_named tm v tm.topics (Entries-of_Distinct tm.topics v.distinct))
  begin-Ends (update_schema n schema) tm v =
      found-Ends tm n (none_or (λ p. updating p schema)) v (if_found tm n _ v (λ p h. h))
  begin-Ends (register_topic n schema) tm v =
      found-Ends tm n (λ o. some (added_or_compared n schema o)) v (reg tm n schema v)
    where
      reg :
          (tm : TopicManager S) (n : String) (schema : Fields)
          → Pool tm
          → (o : Option ℕ) → GoMap.get n tm.topics ≡ o
          → Holds tm.heap (added_or_compared n schema o)
      reg tm n schema v none e = tt
      reg tm n schema v (some p) e = let (t, at, _) = v.named n p e in (t, at)
