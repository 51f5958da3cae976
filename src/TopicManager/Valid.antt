-- ===== src/TopicManager/Valid.antt =====
-- The topic manager as a map from names to topics: when its pointers are in order, and what writing
-- through one of them does to the map.
use data_loom.Common.{
  ℕ, ◌≤◌, String, ◌≡◌, refl, ap, sym, subst, ◌∙◌, ◌≢◌, inl, inr, Option, none, some, List, arith,
  done, length, get_elem?, set, get_elem?-set_self, set-get_elem?, get_elem?-set_ne, ◌==◌, ==_iff,
  if◌then◌else◌, Bool-cases, Option-cases, nat_eq, string_eq,
}
use data_loom.Common.GoMap
use data_loom.Common.GoMap.{GoMap, is_some, get-put, get-delete, get-empty}
use data_loom.Logging.{unlocked}
use data_loom.Topic.{Topic}
use data_loom.Topic.Versions
use data_loom.TopicManager.{TopicManager, failed_capacity, find_topic, on_topic, new_topic_manager}

abbrev pub Names : {S : Type 0} → TopicManager S → String → ℕ → Type 0
Names tm n p = (t : Topic) × (get_elem? tm.heap p ≡ some t) × (t.name ≡ n) × Versions.IsValid t

-- Nobody holds the lock; each name leads to a well-formed topic of that name; the channel of failed
-- clients is within its capacity.
pub record IsValid {S : Type 0} (tm : TopicManager S) : Type 0 where
  pub free : tm.mu ≡ unlocked
  pub resolves : (n : String) (p : ℕ) → GoMap.get n tm.topics ≡ some p → Names tm n p
  pub distinct : GoMap.Distinct tm.topics
  pub bounded : length tm.failed_clients ≤ failed_capacity

-- The map that clients see: names to topics.
abbrev pub View : Type 0
View = String → Option Topic

abbrev deref : List Topic → Option ℕ → Option Topic
deref heap none = none
deref heap (some p) = get_elem? heap p

module _ {S : Type 0} where
  unfoldable pub view : TopicManager S → View
  view tm n = deref tm.heap (GoMap.get n tm.topics)

  pub IsValid-new : (db : S) → IsValid (new_topic_manager db)
  unfolding new_topic_manager
  IsValid-new db = record {
    free = refl;
    resolves = λ n p e. absurd (unfold GoMap.get in cc e);
    distinct = tt;
    bounded = omega arith;
  }

  -- Another database changes nothing that the invariant is about.
  pub IsValid-with_db :
      (tm : TopicManager S) (db : S) → IsValid tm → IsValid (record tm { db = db })
  IsValid-with_db tm db v = record {
    free = v.free;
    resolves = v.resolves;
    distinct = v.distinct;
    bounded = v.bounded;
  }

  -- A claim about a manager whose lock is free.
  pub with_free :
      (P : TopicManager S → Type 0) (tm : TopicManager S)
      → tm.mu ≡ unlocked
      → P (record tm { mu = unlocked })
      → P tm
  with_free P tm e h = subst P (λ i. record tm { mu = sym e i }) h

  -- The lookup returns, and changes nothing.
  pub find_topic_lem :
      (n : String) (tm : TopicManager S)
      → tm.mu ≡ unlocked
      → find_topic n tm ≡ done (GoMap.get n tm.topics) tm
  unfolding find_topic
  find_topic_lem n tm e = with_free (λ x. find_topic n x ≡ done (GoMap.get n x.topics) x) tm e refl

  abbrev pub write_heap : ℕ → Topic → TopicManager S → TopicManager S
  write_heap p t tm = record tm { heap = set tm.heap p t }

  pub on_topic_lem :
      {A : Type 0} (p : ℕ) (f : Topic → A × Topic) (tm : TopicManager S) (t : Topic)
      → get_elem? tm.heap p ≡ some t
      → on_topic p f tm ≡ done (f t).0 (write_heap p (f t).1 tm)
  unfolding on_topic
  on_topic_lem p f tm t e = rw (e, on_topic)

  -- A method that leaves its topic alone leaves the manager alone.
  pub on_topic_reads :
      {A : Type 0} (p : ℕ) (f : Topic → A × Topic) (tm : TopicManager S) (t : Topic)
      → get_elem? tm.heap p ≡ some t
      → (f t).1 ≡ t
      → on_topic p f tm ≡ done (f t).0 tm
  on_topic_reads p f tm t at same =
      on_topic_lem p f tm t at
      ∙ ap (λ u. done (f t).0 (write_heap p u tm)) same
      ∙ ap (λ heap. done (f t).0 (record tm { heap = heap })) (set-get_elem? tm.heap p t at)

  name_at :
      (tm : TopicManager S) (n : String) (p : ℕ) (t : Topic)
      → IsValid tm
      → GoMap.get n tm.topics ≡ some p
      → get_elem? tm.heap p ≡ some t
      → t.name ≡ n
  name_at tm n p t v found here =
      let (u, at, name, _) = v.resolves n p found in
      let same : some t ≡ some u = sym here ∙ at in ground (arith, same, name)

  module _ (tm : TopicManager S) (v : IsValid tm) (n : String) (p : ℕ) (t t' : Topic)
      (found : GoMap.get n tm.topics ≡ some p) (here : get_elem? tm.heap p ≡ some t)
      (named : t'.name ≡ t.name) where
    Names-write :
        Versions.IsValid t'
        → (m : String) (q : ℕ) → GoMap.get m tm.topics ≡ some q
        → Names (write_heap p t' tm) m q
    Names-write vt m q e = elim (Bool-cases (p == q)) [
      | inl same ↦
          let pq = (==_iff p q).0 same in
          (
            t',
            subst (λ x. get_elem? (set tm.heap p t') x ≡ some t') pq
                (get_elem?-set_self tm.heap p t' t here),
            named ∙ name_at tm m q t v e (subst (λ x. get_elem? tm.heap x ≡ some t) pq here),
            vt,
          )
      | inr other ↦
          let (u, at, name, vu) = v.resolves m q e in
          (u, get_elem?-set_ne tm.heap p q t' (λ x. ground (arith, ==_iff p q)) ∙ at, name, vu)
    ]

    -- Writing a topic of the same name keeps the manager in order.
    pub IsValid-write : Versions.IsValid t' → IsValid (write_heap p t' tm)
    IsValid-write vt = record {
      free = v.free;
      resolves = Names-write vt;
      distinct = v.distinct;
      bounded = v.bounded;
    }

    view-write_ne :
        (m : String) (q : ℕ)
        → n ≢ m
        → GoMap.get m tm.topics ≡ some q
        → get_elem? (set tm.heap p t') q ≡ get_elem? tm.heap q
    view-write_ne m q ne e = get_elem?-set_ne tm.heap p q t' λ pq. ne (
        sym (name_at tm n p t v found here)
        ∙ name_at tm m q t v e (subst (λ x. get_elem? tm.heap x ≡ some t) pq here))

    -- Of the map that clients see it changes the one topic.
    pub view-write :
        (m : String) → view (write_heap p t' tm) m ≡ (if n == m then some t' else view tm m)
    unfolding view
    view-write m = elim (Bool-cases (n == m)) [
      | inl same ↦ rw (same, ← (==_iff n m).0 same, found, get_elem?-set_self tm.heap p t' t here)
      | inr other ↦ elim (Option-cases (GoMap.get m tm.topics)) [
        | inl e ↦ rw (other, e)
        | inr (q, e) ↦ rw (other, e) (view-write_ne m q (λ x. ground (arith, ==_iff n m)) e)
      ]
    ]
