-- ===== src/TopicManager/Flat.antt =====
-- IsSchemaMatch of server/internal/topic/topic_manager.go for a message without nested maps.
use data_loom.Common.{
  String, ◌≡◌, refl, subst, ◌∙◌, true, none, some, [], ◌∷◌, arith, done, ok, string_eq,
}
use data_loom.Schema.{Value, Fields, obj, lookup, as_map, schemas_match}
use data_loom.Schema.Keys.{WellFormed, SameKeys}
use data_loom.Schema.Paths.{descend-cons, Conforms, schemas_match_iff}
use data_loom.Topic
use data_loom.Topic.{Topic, TopicSchema}
use data_loom.TopicManager.{TopicManager}
use data_loom.TopicManager.Methods
use data_loom.TopicManager.Valid.{view, IsValid}
use data_loom.TopicManager.Reads.{is_schema_match_refines}

-- No value of the document is a map.
abbrev pub Flat : Fields → Type 0
Flat s = (k : String) (v : Value) → lookup k s ≡ some v → as_map v ≡ none

Flat-Conforms : (s m : Fields) → Flat s → SameKeys s m → Conforms s m
Flat-Conforms s m flat same [] s' e = (m, refl, subst (λ x. SameKeys x m) (ground arith) same)
Flat-Conforms s m flat same (k ∷ p) s' e =
    let (s1, found, _) = descend-cons k p s s' e in absurd (ground (arith, flat k (obj s1) found))

module _ {S : Type 0} (tm : TopicManager S) (n : String) (v : IsValid tm) where
  -- From a manager in order that has the topic, where no map of the message or of the topic's
  -- latest schema has a key twice, a message with the schema's keys and no nested map passes
  -- IsSchemaMatch, whatever nested maps the schema has; no topic changes.
  pub is_schema_match-Flat :
      (message : Fields) (t : Topic) (current : TopicSchema)
      → view tm n ≡ some t
      → Topic.get_latest_schema t ≡ (ok current, t)
      → WellFormed message
      → WellFormed current.schema
      → Flat message
      → SameKeys message current.schema
      → (tm' : TopicManager S) × (Methods.is_schema_match n message tm ≡ done (ok true) tm')
        × ((x : String) → view tm' x ≡ view tm x)
  is_schema_match-Flat message t current seen latest wm wc flat same =
      let passes : schemas_match message current.schema ≡ true =
        (schemas_match_iff message current.schema wm wc).1
          (Flat-Conforms message current.schema flat same) in
      let f = is_schema_match_refines tm n v message in
      (f.after, f.returns ∙ rw seen (ground (arith, latest, passes)), f.sees)
