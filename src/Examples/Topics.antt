-- ===== src/Examples/Topics.antt =====
-- Topics with subscribers and schemas, and documents that match.
use data_loom.Common.{
  ℕ, ◌≡◌, refl, ◌↔◌, true, false, none, some, [], ◌∷◌, arith, ok, ◌==◌, Bool-cases, inl, inr,
  nat_eq,
}
use data_loom.Common.GoMap
use data_loom.Schema.{schemas_match, lookup}
use data_loom.Schema.Keys.{WellFormed}
use data_loom.Schema.Paths.{Conforms, schemas_match_iff}
use data_loom.Network.{client_eq}
use data_loom.Topic.{Topic, TopicSchema, update_schema, get_latest_schema, get_schema_by_version}
use data_loom.Topic.Versions
use data_loom.Topic.Versions.{
  AllNonneg, AllBelow, get_latest_schema-update_schema, update_schema_keeps,
  get_latest_schema_repairs, get_schema_by_version-eq-latest, update_schema-IsValid,
}
use data_loom.Examples.{alice, bob, reading, later_reading, short_reading}

-- Alice and Bob are subscribed.
abbrev pub weather : Topic
weather = record {
  name = "weather";
  subscribers = (alice, true) ∷ (bob, true) ∷ [];
  schemas = (0, record { version = 0; schema = reading }) ∷ [];
  latest_schema = 0;
}

-- A topic whose cached version is not there.
abbrev pub broken : Topic
broken = record weather {
  schemas =
      (1, record { version = 1; schema = reading })
      ∷ (2, record { version = 2; schema = short_reading })
      ∷ [];
  latest_schema = 7;
}

pub weather-IsValid : Versions.IsValid weather
unfolding GoMap.get
weather-IsValid = record {
  cached = refl;
  numbered = λ v s e. elim (Bool-cases (0 == v)) [
    | inl same ↦ ground arith
    | inr other ↦ absurd (ground arith)
  ];
}

broken-AllNonneg : AllNonneg broken.schemas
unfolding GoMap.get
broken-AllNonneg v e = ground arith

broken_missing : GoMap.get broken.latest_schema broken.schemas ≡ none
unfolding GoMap.get
broken_missing = refl

pub reading-WellFormed : WellFormed reading
unfolding lookup
reading-WellFormed = (refl, (refl, tt, tt), (refl, tt, tt))

later-WellFormed : WellFormed later_reading
unfolding lookup
later-WellFormed = (refl, tt, (refl, (refl, tt, tt), tt))

schemas_match_iff_example :
    (schemas_match reading later_reading ≡ true) ↔ Conforms reading later_reading
schemas_match_iff_example =
    schemas_match_iff reading later_reading reading-WellFormed later-WellFormed

-- Every key of the shorter document is in the longer one, but the lengths differ.
short_mismatch : schemas_match short_reading reading ≡ false
unfolding schemas_match
short_mismatch = refl

get_latest_schema-update_schema_example :
    get_latest_schema (update_schema short_reading weather)
    ≡ (ok (record { version = 1; schema = short_reading }), update_schema short_reading weather)
get_latest_schema-update_schema_example = get_latest_schema-update_schema short_reading weather

get_latest_schema_repairs_example :
    (r : ℕ) × (s : TopicSchema) × (get_latest_schema broken
      ≡ (ok s, record broken { latest_schema = r }))
    × (GoMap.get r broken.schemas ≡ some s)
    × AllBelow r broken.schemas
get_latest_schema_repairs_example =
    get_latest_schema_repairs broken (λ e. cc) broken-AllNonneg broken_missing

get_schema_by_version-eq-latest_example :
    get_schema_by_version (λ v. "9") 9 weather ≡ (get_latest_schema weather).0
get_schema_by_version-eq-latest_example =
    get_schema_by_version-eq-latest (λ v. "9") 9 weather weather-IsValid
