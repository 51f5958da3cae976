-- ===== src/Schema/Keys.antt =====
-- The keys of a decoded map: well-formedness (no key twice, at any depth), inclusion, and the
-- counting argument by which equal lengths and one inclusion give the other.
use text.Mathlib.TextEquality.{eq_iff}
use data_loom.Common.{
  suc, ◌≤◌, String, ◌≡◌, refl, true, false, none, some, arith, ◌==◌, ==_refl, if◌then◌else◌,
  Option-cases, Bool-cases, inl, inr, ◌⊎◌, subst, sym, ap, ◌∙◌, nat_eq, string_eq,
}
use data_loom.Common.GoMap.{is_some}
use data_loom.Schema.{Value, Fields, obj, end, field, size, lookup}

none≢some {ℓ} : {A : Type ℓ} {a : A} → none ≡ some a → ⊥
none≢some e = cc

abbrev mutual
  pub WellFormed : Fields → Type 0
  WellFormed end = Unit
  WellFormed (field k v fs) = (lookup k fs ≡ none) × WellFormedValue v × WellFormed fs

  pub WellFormedValue : Value → Type 0
  WellFormedValue (obj fs) = WellFormed fs
  WellFormedValue _ = Unit

-- A found value is the first field's, or is found behind it.
pub lookup-field :
    (k j : String) (w v : Value) (s : Fields)
    → lookup k (field j w s) ≡ some v
    → ((j ≡ k) × (w ≡ v)) ⊎ (lookup k s ≡ some v)
unfolding lookup
lookup-field k j w v s e = elim (Bool-cases (j == k)) [
  | inl p ↦ inl ((eq_iff j k).0 p, ground arith)
  | inr p ↦ inr (rw p at e)
]

-- A new field in front hides nothing.
pub lookup-field_later :
    (k j : String) (w v : Value) (s : Fields)
    → lookup j s ≡ none
    → lookup k s ≡ some v
    → lookup k (field j w s) ≡ some v
unfolding lookup
lookup-field_later k j w v s fresh e = elim (Bool-cases (j == k)) [
  | inl p ↦ absurd (none≢some (sym fresh ∙ ap (λ x. lookup x s) ((eq_iff j k).0 p) ∙ e))
  | inr p ↦ rw p e
]

pub lookup-WellFormed :
    (k : String) (s : Fields) (v : Value) → WellFormed s → lookup k s ≡ some v → WellFormedValue v
lookup-WellFormed k end v wf e = unfold lookup in cc
lookup-WellFormed k (field j w s) v wf e = elim (lookup-field k j w v s e) [
  | inl (_, p) ↦ subst WellFormedValue p wf.1
  | inr later ↦ lookup-WellFormed k s v wf.2 later
]

abbrev pub SubKeys : Fields → Fields → Type 0
SubKeys s m = (k : String) → is_some (lookup k s) ≡ true → is_some (lookup k m) ≡ true

abbrev pub SameKeys : Fields → Fields → Type 0
SameKeys s m = (k : String) → is_some (lookup k s) ≡ is_some (lookup k m)

without : String → Fields → Fields
without k end = end
without k (field j v m) = if j == k then m else field j v (without k m)

lookup-without_ne :
    (k j : String) (m : Fields) → (k == j) ≡ false → lookup j (without k m) ≡ lookup j m
unfolding lookup without
lookup-without_ne k j end h = refl
lookup-without_ne k j (field i v m) h =
    ground (arith, eq_iff i k, eq_iff i j, eq_iff k j, lookup-without_ne k j m h)

without-WellFormed : (k : String) (m : Fields) → WellFormed m → WellFormed (without k m)
unfolding without
without-WellFormed k end wf = tt
without-WellFormed k (field j v m) wf =
    ground (arith, eq_iff j k, eq_iff k j, without-WellFormed k m wf.2, lookup-without_ne k j m)

size-without :
    (k : String) (m : Fields) → is_some (lookup k m) ≡ true → size m ≡ suc (size (without k m))
unfolding lookup without size
size-without k end h = cc
size-without k (field j v m) h = ground (arith, size-without k m)

-- Dropping the first key of `s` from `m` keeps the inclusion.
SubKeys-without :
    (k : String) (v : Value) (s m : Fields)
    → lookup k s ≡ none
    → SubKeys (field k v s) m
    → SubKeys s (without k m)
unfolding lookup
SubKeys-without k v s m fresh sub j h = ground (arith, eq_iff k j, lookup-without_ne k j m, sub j)

-- An inclusion bounds the number of keys.
pub size-le_of_SubKeys : (s m : Fields) → WellFormed s → SubKeys s m → size s ≤ size m
unfolding size
size-le_of_SubKeys end m wf sub = omega arith
size-le_of_SubKeys (field k v s) m wf sub = omega (
  arith,
  size-without k m (sub k (unfold lookup in rw ==_refl)),
  size-le_of_SubKeys s (without k m) wf.2 (SubKeys-without k v s m wf.0 sub),
)

-- A key that `s` lacks can be dropped from `m`.
SubKeys-without_fresh :
    (j : String) (s m : Fields) → lookup j s ≡ none → SubKeys s m → SubKeys s (without j m)
SubKeys-without_fresh j s m fresh sub k h =
    ground (arith, eq_iff j k, lookup-without_ne j k m, sub k h)

-- Equal numbers of keys and one inclusion give the other inclusion.
pub SubKeys-of_size : (s m : Fields) → WellFormed s → SubKeys s m → size s ≡ size m → SubKeys m s
SubKeys-of_size s m wf sub e j h = elim (Option-cases (lookup j s)) [
  | inl fresh ↦ absurd (
      omega (
        arith,
        size-without j m h,
        size-le_of_SubKeys s (without j m) wf (SubKeys-without_fresh j s m fresh sub),
      ))
  | inr (v, found) ↦ rw found
]
