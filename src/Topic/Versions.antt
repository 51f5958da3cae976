-- ===== src/Topic/Versions.antt =====
-- The versions of a topic's schema: what UpdateSchema adds, what GetLatestSchema finds, and how a
-- wrong cached version is mended.
use data_loom.Common.{
  ℕ, ◌^◌, ◌≤◌, ◌<◌, String, ◌≡◌, refl, subst, sym, ◌∙◌, ◌≢◌, ◌⊎◌, inl, inr, true, none, some, [],
  ◌∷◌, arith, ok, ◌==◌, ==_iff, if◌then◌else◌, Option-cases, nat_eq,
}
use data_loom.Common.GoMap
use data_loom.Common.GoMap.{GoMap, get-put, get-put_self, get-empty, some_of_is_some}
use data_loom.Schema.{Fields}
use data_loom.Network.{Client, client_eq}
use data_loom.Topic.{
  Topic, TopicSchema, increment, int_lt, new_topic, update_schema, get_latest_schema,
  highest_version, repair_latest, get_latest_of, latest_or_repair, subscribe, unsubscribe,
  get_schema_by_version,
}

-- A topic as every path of the program leaves it: the cached version is there, and each version
-- stands under its own number.
pub record IsValid (t : Topic) : Type 0 where
  pub cached : GoMap.has t.latest_schema t.schemas ≡ true
  pub numbered : (v : ℕ) (s : TopicSchema) → GoMap.get v t.schemas ≡ some s → s.version ≡ v

put_numbered :
    (m : GoMap ℕ TopicSchema) (k : ℕ) (schema : Fields)
    → ((v : ℕ) (s : TopicSchema) → GoMap.get v m ≡ some s → s.version ≡ v)
    → (v : ℕ) (s : TopicSchema)
    → GoMap.get v (GoMap.put k (record { version = k; schema = schema }) m) ≡ some s
    → s.version ≡ v
put_numbered m k schema h v s e =
    let e' : (if k == v then some (record { version = k; schema = schema }) else GoMap.get v m)
        ≡ some s =
      rw get-put at e in
    ground (arith, h v s)

pub new_topic-IsValid : (name : String) (schema : Fields) → IsValid (new_topic name schema)
unfolding new_topic
new_topic-IsValid name schema = record {
  cached = rw get-put_self;
  numbered = put_numbered [] 0 schema (λ v s e. cc (get-empty {V = TopicSchema} v));
}

-- UpdateSchema keeps a topic well-formed: the cached version is there, and each schema carries the
-- version under which it stands.
pub update_schema-IsValid :
    (schema : Fields) (t : Topic) → IsValid t → IsValid (update_schema schema t)
unfolding update_schema
update_schema-IsValid schema t h = record {
  cached = rw get-put_self;
  numbered = put_numbered t.schemas (increment t.latest_schema) schema h.numbered;
}

get_latest_of-cached :
    (m : GoMap ℕ TopicSchema) (t : Topic) (s : TopicSchema)
    → GoMap.get t.latest_schema m ≡ some s
    → GoMap.get t.latest_schema t.schemas ≡ some s
    → get_latest_of m t ≡ (ok s, t)
get_latest_of-cached [] t s e h = unfold GoMap.get in cc
get_latest_of-cached (x ∷ m) t s e h = rw h

-- A cached version that is there is returned, and nothing changes.
pub get_latest_schema_cached :
    (t : Topic) (s : TopicSchema)
    → GoMap.get t.latest_schema t.schemas ≡ some s
    → get_latest_schema t ≡ (ok s, t)
unfolding get_latest_schema
get_latest_schema_cached t s h = get_latest_of-cached t.schemas t s h h

-- In a well-formed topic GetLatestSchema succeeds and changes nothing.
pub get_latest_schema_valid :
    (t : Topic)
    → IsValid t
    → (s : TopicSchema) × (get_latest_schema t ≡ (ok s, t))
      × (s.version ≡ t.latest_schema)
      × (GoMap.get t.latest_schema t.schemas ≡ some s)
get_latest_schema_valid t h =
    let (s, e) = some_of_is_some (GoMap.get t.latest_schema t.schemas) h.cached in
    (s, get_latest_schema_cached t s e, h.numbered t.latest_schema s e, e)

-- GetLatestSchema after UpdateSchema returns the new schema under the next version, and changes
-- nothing.
pub get_latest_schema-update_schema :
    (schema : Fields) (t : Topic)
    → get_latest_schema (update_schema schema t) ≡ (
      ok (record { version = increment t.latest_schema; schema = schema }),
      update_schema schema t,
    )
get_latest_schema-update_schema schema t =
    get_latest_schema_cached (update_schema schema t)
      (record { version = increment t.latest_schema; schema = schema })
      (unfold update_schema in get-put_self _ _ t.schemas)

-- UpdateSchema keeps what stands under every version other than the next one.
pub update_schema_keeps :
    (schema : Fields) (t : Topic) (v : ℕ)
    → v ≢ increment t.latest_schema
    → GoMap.get v (update_schema schema t).schemas ≡ GoMap.get v t.schemas
unfolding update_schema
update_schema_keeps schema t v h = rw get-put (ground (arith, ==_iff (increment t.latest_schema) v))

-- Versions that are not negative as 64-bit integers.
abbrev pub AllNonneg : GoMap ℕ TopicSchema → Type 0
AllNonneg m = (v : ℕ) → GoMap.has v m ≡ true → v < 2 ^ 63

abbrev pub AllBelow : ℕ → GoMap ℕ TopicSchema → Type 0
AllBelow h m = (v : ℕ) → GoMap.has v m ≡ true → v ≤ h

-- One round of the loop, between versions that are not negative.
abbrev higher : ℕ → ℕ → ℕ
higher h v = if int_lt h v then v else h

higher_lem :
    (h v : ℕ)
    → h < 2 ^ 63
    → v < 2 ^ 63
    → (h ≤ higher h v) × (v ≤ higher h v) × ((higher h v ≡ h) ⊎ (higher h v ≡ v))
higher_lem h v b c = ground arith

-- What the loop returns, from `h` on and over `m`.
abbrev IsHighest : ℕ → GoMap ℕ TopicSchema → ℕ → Type 0
IsHighest h m r = (h ≤ r) × AllBelow r m × ((r ≡ h) ⊎ (GoMap.has r m ≡ true))

IsHighest-cons :
    (h v r : ℕ) (s : TopicSchema) (m : GoMap ℕ TopicSchema)
    → h < 2 ^ 63
    → v < 2 ^ 63
    → IsHighest (higher h v) m r
    → IsHighest h ((v, s) ∷ m) r
IsHighest-cons h v r s m b c (low, below, from) = (
  omega (arith, step),
  λ w e. elim (GoMap.has-cons w v s m e) [
    | inl p ↦ omega (arith, step)
    | inr later ↦ below w later
  ],
  elim from [
    | inr there ↦ inr (GoMap.has-cons_later r v s m there)
    | inl same ↦ elim step.2 [ inl p ↦ inl (same ∙ p) | inr p ↦ inr (first (same ∙ p)) ]
  ],
)
  where
    step : (h ≤ higher h v) × (v ≤ higher h v) × ((higher h v ≡ h) ⊎ (higher h v ≡ v))
    step = higher_lem h v b c

    first : r ≡ v → GoMap.has r ((v, s) ∷ m) ≡ true
    first p = subst (λ x. GoMap.has x ((v, s) ∷ m) ≡ true) (sym p) (GoMap.has-cons_self v s m)

highest_version-IsHighest :
    (h : ℕ) (m : GoMap ℕ TopicSchema)
    → h < 2 ^ 63
    → AllNonneg m
    → IsHighest h m (highest_version h m)
unfolding highest_version
highest_version-IsHighest h [] b n =
    (omega arith, λ v e. absurd (unfold GoMap.get in cc e), inl refl)
highest_version-IsHighest h ((v, s) ∷ m) b n =
    let c = n v (GoMap.has-cons_self v s m) in
    IsHighest-cons h v _ s m b c (
      highest_version-IsHighest (higher h v) m (omega (arith, higher_lem h v b c))
        (λ w e. n w (GoMap.has-cons_later w v s m e)))

-- From 0, over a map that is not empty, the loop ends at a version of the map.
highest_version_found :
    (v : ℕ) (s : TopicSchema) (m : GoMap ℕ TopicSchema) (r : ℕ)
    → IsHighest 0 ((v, s) ∷ m) r
    → GoMap.has r ((v, s) ∷ m) ≡ true
highest_version_found v s m r (low, below, inr there) = there
highest_version_found v s m r (low, below, inl zero_top) =
    let e : v ≡ r = omega (arith, below v (GoMap.has-cons_self v s m)) in
    subst (λ x. GoMap.has x ((v, s) ∷ m) ≡ true) e (GoMap.has-cons_self v s m)

highest_of_nonempty :
    (m : GoMap ℕ TopicSchema)
    → m ≢ []
    → AllNonneg m
    → AllBelow (highest_version 0 m) m × (GoMap.has (highest_version 0 m) m ≡ true)
highest_of_nonempty [] h n = absurd (h refl)
highest_of_nonempty ((v, s) ∷ m) h n =
    let top = highest_version-IsHighest 0 ((v, s) ∷ m) (omega arith) n in
    (top.1, highest_version_found v s m _ top)

get_latest_of_nonempty :
    (m : GoMap ℕ TopicSchema) (t : Topic)
    → m ≢ []
    → get_latest_of m t ≡ latest_or_repair (GoMap.get t.latest_schema t.schemas) t
get_latest_of_nonempty [] t h = absurd (h refl)
get_latest_of_nonempty (x ∷ m) t h = refl

repair_latest_found :
    (t : Topic) (s : TopicSchema)
    → GoMap.get (highest_version 0 t.schemas) t.schemas ≡ some s
    → repair_latest t ≡ (ok s, record t { latest_schema = highest_version 0 t.schemas })
unfolding repair_latest
repair_latest_found t s e = rw e

-- Where the cached version is not there, but some version is and none is negative, GetLatestSchema
-- returns the schema under the highest version that is there, and caches that version.
pub get_latest_schema_repairs :
    (t : Topic)
    → t.schemas ≢ []
    → AllNonneg t.schemas
    → GoMap.get t.latest_schema t.schemas ≡ none
    → (r : ℕ) × (s : TopicSchema) × (get_latest_schema t ≡ (ok s, record t { latest_schema = r }))
      × (GoMap.get r t.schemas ≡ some s)
      × AllBelow r t.schemas
unfolding get_latest_schema
get_latest_schema_repairs t h n missing =
    let (below, there) = highest_of_nonempty t.schemas h n in
    let (s, e) = some_of_is_some _ there in
    (
      highest_version 0 t.schemas,
      s,
      get_latest_of_nonempty t.schemas t h ∙ rw missing (repair_latest_found t s e),
      e,
      below,
    )

-- In a well-formed topic GetSchemaByVersion returns what GetLatestSchema returns, whichever version
-- it is asked for.
pub get_schema_by_version-eq-latest :
    (decimal : ℕ → String) (v : ℕ) (t : Topic)
    → IsValid t
    → get_schema_by_version decimal v t ≡ (get_latest_schema t).0
unfolding get_schema_by_version
get_schema_by_version-eq-latest decimal v t h =
    let (s, e) = some_of_is_some (GoMap.get t.latest_schema t.schemas) h.cached in
    rw (e, get_schema_by_version, get_latest_schema_cached t s e)

pub subscribe-IsValid : (c : Client) (t : Topic) → IsValid t → IsValid (subscribe c t)
unfolding subscribe
subscribe-IsValid c t h = record { cached = h.cached; numbered = h.numbered }

-- Unsubscribe changes neither the name nor the schemas.
pub unsubscribe_keeps :
    (c : Client) (t : Topic)
    → IsValid t
    → ((unsubscribe c t).1.name ≡ t.name) × IsValid (unsubscribe c t).1
unfolding unsubscribe
unsubscribe_keeps c t h = elim (Option-cases (GoMap.get c t.subscribers)) [
  | inl e ↦ rw (e, unsubscribe) (refl, h)
  | inr (b, e) ↦ rw (e, unsubscribe) (refl, record { cached = h.cached; numbered = h.numbered })
]
