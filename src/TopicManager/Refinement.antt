-- ===== src/TopicManager/Refinement.antt =====
-- The methods of server/internal/topic/topic_manager.go that work on one topic, against the
-- specification on the map from names to topics.
use mathlib.Core.Option
use data_loom.Common.{
  ℕ, String, ◌≡◌, refl, ap, sym, ◌∙◌, ◌⊎◌, inl, inr, Option, none, some, arith, Go, done, get_elem?,
  ◌==◌, ==_iff, if◌then◌else◌, Bool-cases, Option-cases, nat_eq, string_eq,
}
use data_loom.Common.GoMap
use data_loom.Schema.{Fields}
use data_loom.Network.{Client}
use data_loom.Topic
use data_loom.Topic.{Topic}
use data_loom.Topic.Versions
use data_loom.Topic.Changes.{
  subscribe-eq-joined, unsubscribe-eq-left, update_schema-eq-with_next_schema,
}
use data_loom.TopicManager.{TopicManager, on_topic}
use data_loom.TopicManager.Methods
use data_loom.TopicManager.Valid.{
  View, view, IsValid, find_topic_lem, on_topic_lem, write_heap, IsValid-write, view-write,
}
use data_loom.TopicManager.Spec
use data_loom.TopicManager.Spec.{update_at}

map_same : (f : Topic → Topic) (o : Option Topic) → ((t : Topic) → f t ≡ t) → Option.map f o ≡ o
map_same f none h = refl
map_same f (some t) h = ap some (h t)

update_at_missing :
    (n x : String) (f : Topic → Topic) (w : View) → w n ≡ none → w x ≡ update_at n f w x
update_at_missing n x f w e = elim (Bool-cases (n == x)) [
  | inl same ↦ let gone = ap w (sym ((==_iff n x).0 same)) ∙ e in rw (same, gone)
  | inr other ↦ rw other
]

pub update_at_fixed :
    (n x : String) (f : Topic → Topic) (w : View) (t : Topic)
    → w n ≡ some t
    → f t ≡ t
    → update_at n f w x ≡ w x
update_at_fixed n x f w t e h = elim (Bool-cases (n == x)) [
  | inl same ↦ let there = ap w (sym ((==_iff n x).0 same)) ∙ e in rw (same, there) (ap some h)
  | inr other ↦ rw other
]

-- A method that changes nothing of the topic.
update_at_same :
    (n x : String) (f : Topic → Topic) (w : View)
    → ((t : Topic) → f t ≡ t)
    → update_at n f w x ≡ w x
update_at_same n x f w h = elim (Bool-cases (n == x)) [
  | inl e ↦ rw e (map_same f (w x) h)
  | inr e ↦ rw e
]

module _ {S : Type 0} where
  -- From a manager in order the call returns, with the promised result, and leaves a manager in order
  -- whose map is the promised one; the pointers, the storage and the channel of failed clients
  -- stay as they are.
  pub record Refines {A : Type 0} (m : Go (TopicManager S) A) (tm : TopicManager S) (r : A × View)
      : Type 0 where
    pub after : TopicManager S
    pub returns : m tm ≡ done r.0 after
    pub valid : IsValid after
    pub sees : (x : String) → view after x ≡ r.1 x
    pub keeps_topics : after.topics ≡ tm.topics
    pub keeps_db : after.db ≡ tm.db
    pub keeps_failed : after.failed_clients ≡ tm.failed_clients

  -- The same for another call that ends in the same state.
  pub Refines-again :
      {A B : Type 0} {m : Go (TopicManager S) A} {tm : TopicManager S} {a : A} {w : View}
      (m' : Go (TopicManager S) B) (b : B) (w' : View) (r : Refines m tm (a, w))
      → m' tm ≡ done b r.after
      → ((x : String) → w x ≡ w' x)
      → Refines m' tm (b, w')
  Refines-again m' b w' r e h = record {
    after = r.after;
    returns = e;
    valid = r.valid;
    sees = λ x. r.sees x ∙ h x;
    keeps_topics = r.keeps_topics;
    keeps_db = r.keeps_db;
    keeps_failed = r.keeps_failed;
  }

  -- A call that changes nothing.
  pub Refines-unchanged :
      {A : Type 0} (m : Go (TopicManager S) A) (tm : TopicManager S) (a : A) (w : View)
      → IsValid tm
      → m tm ≡ done a tm
      → ((x : String) → view tm x ≡ w x)
      → Refines m tm (a, w)
  Refines-unchanged m tm a w v e h = record {
    after = tm;
    returns = e;
    valid = v;
    sees = h;
    keeps_topics = refl;
    keeps_db = refl;
    keeps_failed = refl;
  }

  -- A name that leads to a topic.
  pub record Found (tm : TopicManager S) (n : String) (p : ℕ) (t : Topic) : Type 0 where
    pub entry : GoMap.get n tm.topics ≡ some p
    pub at : get_elem? tm.heap p ≡ some t
    pub seen : view tm n ≡ some t
    pub name : t.name ≡ n
    pub valid : Versions.IsValid t

  pub Found-cases :
      (tm : TopicManager S) (n : String)
      → IsValid tm
      → ((GoMap.get n tm.topics ≡ none) × (view tm n ≡ none))
        ⊎ ((p : ℕ) × (t : Topic) × Found tm n p t)
  unfolding view
  Found-cases tm n v = elim (Option-cases (GoMap.get n tm.topics)) [
    | inl e ↦ inl (e, rw e)
    | inr (p, e) ↦
        let (t, at, name, valid) = v.resolves n p e in
        inr (p, t, record { entry = e; at = at; seen = rw e at; name = name; valid = valid })
  ]

  -- A method of the topic that a name leads to.
  pub on_found :
      {A : Type 0} (tm : TopicManager S) (n : String) (p : ℕ) (t : Topic) (f : Topic → A × Topic)
      → IsValid tm
      → Found tm n p t
      → (f t).1.name ≡ t.name
      → Versions.IsValid (f t).1
      → Refines (on_topic p f) tm ((f t).0, update_at n (λ x. (f x).1) (view tm))
  on_found tm n p t f v h named vt = record {
    after = write_heap p (f t).1 tm;
    returns = on_topic_lem p f tm t h.at;
    valid = IsValid-write tm v n p t (f t).1 h.entry h.at named vt;
    sees = λ x. view-write tm v n p t (f t).1 h.entry h.at named x ∙ same x;
    keeps_topics = refl;
    keeps_db = refl;
    keeps_failed = refl;
  }
    where
      same :
          (x : String)
          → (if n == x then some (f t).1 else view tm x) ≡ update_at n (λ x. (f x).1) (view tm) x
      same x = elim (Bool-cases (n == x)) [
        | inl e ↦ rw (e, ← (==_iff n x).0 e, h.seen)
        | inr e ↦ rw e
      ]

  -- From a manager in order Subscribe returns: it adds the client to the subscribers of the map's
  -- topic of that name, or answers that there is none. It changes no other topic, nor the map's
  -- pointers, the storage and the queue of failed clients, and the manager stays in order.
  pub subscribe_refines :
      (tm : TopicManager S) (n : String) (c : Client)
      → IsValid tm
      → Refines (Methods.subscribe n c) tm (Spec.subscribe n c (view tm))
  unfolding Methods.subscribe
  subscribe_refines tm n c v = elim (Found-cases tm n v) [
    | inl (e, unseen) ↦
        Refines-unchanged _ tm _ _ v (ground (arith, find_topic_lem n tm v.free))
          (λ x. update_at_missing n x _ (view tm) unseen)
    | inr (p, t, h) ↦
        let r =
          on_found tm n p t (Methods.writing (Topic.subscribe c)) v h
            (unfold Topic.subscribe in refl) (Versions.subscribe-IsValid c t h.valid) in
        Refines-again _ _ _ r
          (ground (arith, find_topic_lem n tm v.free, h.entry, h.seen, r.returns))
          (λ x i. update_at n (λ u. subscribe-eq-joined c u i) (view tm) x)
  ]

  -- From a manager in order Unsubscribe returns: it takes the client from the map's topic of that
  -- name, or answers that there is no such topic, or that the client was not subscribed. It changes
  -- no other topic, nor the map's pointers, the storage and the queue of failed clients, and the
  -- manager stays in order.
  pub unsubscribe_refines :
      (tm : TopicManager S) (n : String) (c : Client)
      → IsValid tm
      → Refines (Methods.unsubscribe n c) tm (Spec.unsubscribe n c (view tm))
  unfolding Methods.unsubscribe
  unsubscribe_refines tm n c v = elim (Found-cases tm n v) [
    | inl (e, unseen) ↦
        Refines-unchanged _ tm _ _ v (ground (arith, find_topic_lem n tm v.free))
          (λ x. update_at_missing n x _ (view tm) unseen)
    | inr (p, t, h) ↦
        let (named, vt) = Versions.unsubscribe_keeps c t h.valid in
        let r = on_found tm n p t (Topic.unsubscribe c) v h named vt in
        let answer : (Topic.unsubscribe c t).0 ≡ Spec.left_answer c t =
          ap (λ u. u.0) (unsubscribe-eq-left c t) in
        Refines-again _ _ _ r
          (ground (arith, find_topic_lem n tm v.free, h.entry, h.seen, r.returns, answer))
          (λ x i. update_at n (λ u. (unsubscribe-eq-left c u i).1) (view tm) x)
  ]

  -- From a manager in order ListSubscribersForTopic returns the subscribers of the map's topic of
  -- that name, or answers that there is none, and changes no topic.
  pub list_subscribers_refines :
      (tm : TopicManager S) (n : String)
      → IsValid tm
      → Refines
          (Methods.list_subscribers_for_topic n)
          tm
          (Spec.list_subscribers_for_topic n (view tm))
  unfolding Methods.list_subscribers_for_topic
  list_subscribers_refines tm n v = elim (Found-cases tm n v) [
    | inl (e, unseen) ↦
        Refines-unchanged _ tm _ _ v (ground (arith, find_topic_lem n tm v.free)) (λ x. refl)
    | inr (p, t, h) ↦
        let r = on_found tm n p t (Methods.reading Topic.list_subscribers) v h refl h.valid in
        Refines-again _ _ _ r
          (ground (arith, find_topic_lem n tm v.free, h.entry, h.seen, r.returns))
          (λ x. update_at_same n x _ (view tm) (λ t. refl))
  ]

  -- From a manager in order UpdateSchema returns: it gives the map's topic of that name its next
  -- schema, or answers that there is no such topic. It changes no other topic, nor the map's
  -- pointers, the storage and the queue of failed clients, and the manager stays in order.
  pub update_schema_refines :
      (tm : TopicManager S) (n : String) (schema : Fields)
      → IsValid tm
      → Refines (Methods.update_schema n schema) tm (Spec.update_schema n schema (view tm))
  unfolding Methods.update_schema
  update_schema_refines tm n schema v = elim (Found-cases tm n v) [
    | inl (e, unseen) ↦
        Refines-unchanged _ tm _ _ v (ground (arith, find_topic_lem n tm v.free))
          (λ x. update_at_missing n x _ (view tm) unseen)
    | inr (p, t, h) ↦
        let r =
          on_found tm n p t (Methods.writing (Topic.update_schema schema)) v h
            (unfold Topic.update_schema in refl)
            (Versions.update_schema-IsValid schema t h.valid) in
        Refines-again _ _ _ r
          (ground (arith, find_topic_lem n tm v.free, h.entry, h.seen, r.returns))
          (λ x i. update_at n (λ u. update_schema-eq-with_next_schema schema u i) (view tm) x)
  ]
