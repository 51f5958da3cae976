-- ===== src/TopicManager/Registration.antt =====
-- RegisterTopic of server/internal/topic/topic_manager.go, against its specification.
use data_loom.Common.{
  ℕ, String, ◌≡◌, refl, ap, sym, subst, ◌∙◌, inl, inr, none, some, [], ◌∷◌, ◌++◌, arith, done,
  Result, ok, err, length, get_elem?, get_elem?-append_last, get_elem?-append_left, ◌==◌, ==_iff,
  if◌then◌else◌, Bool-cases, Option-cases, string_eq, nat_eq,
}
use data_loom.Common.GoMap
use data_loom.Common.GoMap.{GoMap, get-put, get-delete}
use data_loom.Schema.{Fields, schemas_match}
use data_loom.Topic
use data_loom.Topic.{Topic, TopicSchema}
use data_loom.Topic.Versions
use data_loom.Topic.Changes.{new_topic-eq-fresh_topic}
use data_loom.TopicManager.{TopicManager}
use data_loom.TopicManager.Methods
use data_loom.TopicManager.Methods.{mismatch}
use data_loom.TopicManager.Valid.{view, IsValid, Names, find_topic_lem}
use data_loom.TopicManager.Spec
use data_loom.TopicManager.Refinement.{Found, Found-cases, on_found, update_at_fixed}

-- A result with its pointer forgotten.
abbrev pub outcome : Result ℕ → Result (Unit {0})
outcome (ok p) = ok tt
outcome (err e) = err e

-- The call returns with the promised outcome and map, and a pointer that it returns is the map's.
pub record Registers {S : Type 0} (n : String) (schema : Fields) (tm : TopicManager S)
    : Type 0 where
  pub after : TopicManager S
  pub result : Result ℕ
  pub returns : Methods.register_topic n schema tm ≡ done result after
  pub promised : outcome result ≡ (Spec.register_topic n schema (view tm)).0
  pub points : (p : ℕ) → result ≡ ok p → GoMap.get n after.topics ≡ some p
  pub valid : IsValid after
  pub sees : (x : String) → view after x ≡ (Spec.register_topic n schema (view tm)).1 x
  pub keeps_db : after.db ≡ tm.db

module _ {S : Type 0} (n : String) (schema : Fields) (tm : TopicManager S) (v : IsValid tm) where
  abbrev pub added : TopicManager S
  added = record tm {
    heap = tm.heap ++ Topic.new_topic n schema ∷ [];
    topics = GoMap.put n (length tm.heap) tm.topics;
  }

  new_at : get_elem? added.heap (length tm.heap) ≡ some (Topic.new_topic n schema)
  new_at = get_elem?-append_last tm.heap (Topic.new_topic n schema)

  added-Names : (m : String) (q : ℕ) → GoMap.get m added.topics ≡ some q → Names added m q
  added-Names m q e =
      let e' : (if n == m then some (length tm.heap) else GoMap.get m tm.topics) ≡ some q =
        sym (get-put n m (length tm.heap) tm.topics) ∙ e in
      elim (Bool-cases (n == m)) [
        | inl same ↦
            let last : length tm.heap ≡ q = ground arith in
            (
              Topic.new_topic n schema,
              subst (λ x. get_elem? added.heap x ≡ some (Topic.new_topic n schema)) last new_at,
              unfold Topic.new_topic in (==_iff n m).0 same,
              Versions.new_topic-IsValid n schema,
            )
        | inr other ↦
            let (t, at, name, vt) = v.resolves m q (ground arith) in
            (t, get_elem?-append_left tm.heap _ q t at, name, vt)
      ]

  pub added-IsValid : IsValid added
  added-IsValid = record {
    free = v.free;
    resolves = added-Names;
    distinct = GoMap.put-Distinct n (length tm.heap) tm.topics v.distinct;
    bounded = v.bounded;
  }

  pub view-added :
      (m : String) → view added m ≡ (if n == m then some (Topic.new_topic n schema) else view tm m)
  unfolding view
  view-added m = elim (Bool-cases (n == m)) [
    | inl same ↦ rw (get-put, same) new_at
    | inr other ↦ elim (Option-cases (GoMap.get m tm.topics)) [
      | inl e ↦ rw (get-put, other, e)
      | inr (q, e) ↦
          let (t, at, name, vt) = v.resolves m q e in
          rw (get-put, other, e) (get_elem?-append_left tm.heap _ q t at ∙ sym at)
    ]
  ]

  register_added : GoMap.get n tm.topics ≡ none → view tm n ≡ none → Registers n schema tm
  unfolding Methods.register_topic
  register_added e unseen = record {
    after = added;
    result = ok (length tm.heap);
    returns = ground (arith, find_topic_lem n tm v.free);
    promised = rw unseen;
    points = λ p q. ground (arith, GoMap.get-put_self n (length tm.heap) tm.topics);
    valid = added-IsValid;
    sees = λ x.
        view-added x
        ∙ (λ i. if n == x then some (new_topic-eq-fresh_topic n schema i) else view tm x)
        ∙ rw unseen;
    keeps_db = refl;
  }

  module _ (p : ℕ) (t : Topic) (h : Found tm n p t) where
    -- The topic is there, and its latest schema is known, since it is well-formed.
    register_found :
        (s : TopicSchema)
        → Topic.get_latest_schema t ≡ (ok s, t)
        → GoMap.get t.latest_schema t.schemas ≡ some s
        → Registers n schema tm
    unfolding Methods.register_topic
    register_found s e cached =
        let r =
          on_found tm n p t Topic.get_latest_schema v h (ap (λ x. x.1.name) e)
            (subst Versions.IsValid (sym (ap (λ x. x.1) e)) h.valid) in
        let fixed : (x : String) → view r.after x ≡ view tm x =
          λ x. r.sees x ∙ update_at_fixed n x _ (view tm) t h.seen (ap (λ y. y.1) e) in
        elim (Bool-cases (schemas_match s.schema schema)) [
          | inl yes' ↦ record {
            after = r.after;
            result = ok p;
            returns = ground (arith, find_topic_lem n tm v.free, h.entry, r.returns);
            promised = ground (arith, h.seen, cached);
            points = λ q eq. ground (arith, r.keeps_topics, h.entry, eq);
            valid = r.valid;
            sees = λ x. ground (arith, fixed x, h.seen, cached);
            keeps_db = r.keeps_db;
          }
          | inr no' ↦ record {
            after = r.after;
            result = err mismatch;
            returns = ground (arith, find_topic_lem n tm v.free, h.entry, r.returns);
            promised = ground (arith, h.seen, cached);
            points = λ q eq. cc;
            valid = r.valid;
            sees = λ x. ground (arith, fixed x, h.seen, cached);
            keeps_db = r.keeps_db;
          }
        ]

  -- From a manager in order RegisterTopic returns. A new name gets a new topic with the schema at
  -- version 0; a known name keeps its topic, whose pointer is returned if its latest schema matches
  -- the given one, and otherwise the call fails. A pointer that is returned is the map's. The
  -- manager stays in order.
  pub register_topic_refines : Registers n schema tm
  register_topic_refines = elim (Found-cases tm n v) [
    | inl (e, unseen) ↦ register_added e unseen
    | inr (p, t, h) ↦
        let (s, e, number, cached) = Versions.get_latest_schema_valid t h.valid in
        register_found p t h s e cached
  ]
