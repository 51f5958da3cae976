-- ===== src/TopicManager/Reads.antt =====
-- The methods that answer from a topic: the schema check before a publish, and stored values.
use data_loom.Common.{
  ℕ, String, ◌<>◌, ◌≡◌, refl, ap, sym, subst, ◌∙◌, inl, inr, Bool, Option, none, some, arith, done,
  Result, ok, err, string_eq,
}
use data_loom.Schema.{Fields}
use data_loom.Storage.{Storage}
use data_loom.Topic
use data_loom.Topic.{Topic, TopicSchema}
use data_loom.Topic.Versions
use data_loom.TopicManager.{TopicManager}
use data_loom.TopicManager.Methods
use data_loom.TopicManager.Methods.{compare_schemas, explain_get, reading}
use data_loom.TopicManager.Valid.{view, IsValid, IsValid-with_db, find_topic_lem}
use data_loom.TopicManager.Refinement.{
  Refines, Refines-unchanged, Refines-again, Found, Found-cases, on_found, update_at_fixed,
}

-- The answer to a check, from the map.
abbrev pub check_answer : String → Fields → Option Topic → Result Bool
check_answer n schema none = err ("could not get topic by name: " <> n)
check_answer n schema (some t) = compare_schemas schema (Topic.get_latest_schema t).0

module _ {S : Type 0} (tm : TopicManager S) (n : String) (v : IsValid tm) where
  module _ (schema : Fields) where
    check_found :
        (p : ℕ) (t : Topic) (s : TopicSchema)
        → Found tm n p t
        → Topic.get_latest_schema t ≡ (ok s, t)
        → Refines (Methods.is_schema_match n schema) tm (check_answer n schema (view tm n), view tm)
    unfolding Methods.is_schema_match
    check_found p t s h e =
        let r =
          on_found tm n p t Topic.get_latest_schema v h (ap (λ x. x.1.name) e)
            (subst Versions.IsValid (sym (ap (λ x. x.1) e)) h.valid) in
        Refines-again _ _ _ r
          (ground (arith, find_topic_lem n tm v.free, h.entry, h.seen, r.returns, e))
          (λ x. update_at_fixed n x _ (view tm) t h.seen (ap (λ y. y.1) e))

    -- From a manager in order IsSchemaMatch returns, and changes no topic: an error for a missing
    -- topic, true where the given map matches the topic's latest schema, and an error where it does
    -- not.
    pub is_schema_match_refines :
        Refines (Methods.is_schema_match n schema) tm (check_answer n schema (view tm n), view tm)
    unfolding Methods.is_schema_match
    is_schema_match_refines = elim (Found-cases tm n v) [
      | inl (e, unseen) ↦
          Refines-unchanged _ tm _ _ v (ground (arith, find_topic_lem n tm v.free)) (λ x. refl)
      | inr (p, t, h) ↦
          let (s, e, number, cached) = Versions.get_latest_schema_valid t h.valid in
          check_found p t s h e
    ]

  module _ (storage : Storage S) (ctx : ℕ) where
    -- Without the topic the storage is not asked.
    pub get_missing :
        view tm n ≡ none
        → Methods.get storage ctx n tm
          ≡ done (err ("couldn't get value for topic. topic doesn't exist. topic: " <> n)) tm
    unfolding Methods.get
    get_missing unseen = elim (Found-cases tm n v) [
      | inl (e, _) ↦ ground (arith, find_topic_lem n tm v.free)
      | inr (p, u, h) ↦ absurd (ground (arith, unseen, h.seen))
    ]

    -- From a manager in order that has the topic, where the storage's Get for the topic's name
    -- returns, the manager's Get returns the same, an error with its explanation, and changes no
    -- topic; the storage is as its Get left it.
    pub get_stored :
        (t : Topic) (r : Result (Option Fields)) (db : S)
        → view tm n ≡ some t
        → storage.get ctx n tm.db ≡ done r db
        → (tm' : TopicManager S) × (Methods.get storage ctx n tm ≡ done (explain_get r) tm')
          × ((x : String) → view tm' x ≡ view tm x)
          × (tm'.db ≡ db)
          × IsValid tm'
    unfolding Methods.get
    get_stored t r db seen d = elim (Found-cases tm n v) [
      | inl (e, unseen) ↦ absurd (ground (arith, seen, unseen))
      | inr (p, u, h) ↦
          let r' = on_found tm n p u (reading (λ x. x.name)) v h refl h.valid in
          let got : storage.get ctx u.name r'.after.db ≡ done r db =
            ap (storage.get ctx u.name) r'.keeps_db
            ∙ subst (λ x. storage.get ctx x tm.db ≡ done r db) (sym h.name) d in
          (
            record r'.after { db = db },
            ground (arith, find_topic_lem n tm v.free, h.entry, r'.returns, got),
            λ x. unfold view in r'.sees x ∙ update_at_fixed n x _ (view tm) u h.seen refl,
            refl,
            IsValid-with_db r'.after db r'.valid,
          )
    ]
