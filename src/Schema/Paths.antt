-- ===== src/Schema/Paths.antt =====
-- `schemasMatch` of server/internal/topic/topic_manager.go against a description without its loop,
-- by the paths of keys into nested maps.
use data_loom.Common.{
  String, ◌≡◌, refl, ap, ◌↔◌, inl, inr, subst, sym, ◌∙◌, Bool, true, ◌&&◌, Option, none, some, List,
  [], ◌∷◌, arith, ==_refl, Option-cases, nat_eq, string_eq,
}
use data_loom.Common.GoMap.{is_some, some_of_is_some}
use data_loom.Schema.{
  Value, Fields, obj, end, field, size, lookup, match_fields, match_value, schemas_match, same_size,
}
use data_loom.Schema.Keys.{
  WellFormed, WellFormedValue, lookup-WellFormed, SubKeys, SameKeys, size-le_of_SubKeys,
  SubKeys-of_size, lookup-field, lookup-field_later,
}

-- The nested map that a path of keys leads to.
abbrev descend_into : (Fields → Option Fields) → Option Value → Option Fields
descend_into next (some (obj fs)) = next fs
descend_into next _ = none

abbrev pub descend : List String → Fields → Option Fields
descend [] s = some s
descend (k ∷ p) s = descend_into (descend p) (lookup k s)

abbrev pub Conforms : Fields → Fields → Type 0
Conforms s m =
    (p : List String) (s' : Fields)
    → descend p s ≡ some s'
    → (m' : Fields) × (descend p m ≡ some m') × SameKeys s' m'

&&-left : (a b : Bool) → (a && b) ≡ true → a ≡ true
&&-left a b h = ground arith

&&-right : (a b : Bool) → (a && b) ≡ true → b ≡ true
&&-right a b h = ground arith

-- What the loop has checked of each field.
match_fields-lookup :
    (k : String) (s m : Fields) (v : Value)
    → match_fields s m ≡ true
    → lookup k s ≡ some v
    → match_value v (lookup k m) ≡ true
unfolding match_fields lookup
match_fields-lookup k end m v h e = cc
match_fields-lookup k (field j w s) m v h e = elim (lookup-field k j w v s e) [
  | inl (p, q) ↦
      subst (λ x. match_value v (lookup x m) ≡ true) p
        (subst (λ x. match_value x (lookup j m) ≡ true) q (&&-left _ _ h))
  | inr later ↦ match_fields-lookup k s m v (&&-right _ _ h) later
]

match_value-is_some : (v : Value) (o : Option Value) → match_value v o ≡ true → is_some o ≡ true
unfolding match_fields
match_value-is_some v none h = cc
match_value-is_some v (some w) h = refl

match_fields-SubKeys : (s m : Fields) → match_fields s m ≡ true → SubKeys s m
match_fields-SubKeys s m h k there = elim (Option-cases (lookup k s)) [
  | inl e ↦ ground arith
  | inr (v, e) ↦ match_value-is_some v (lookup k m) (match_fields-lookup k s m v h e)
]

SameKeys-of_SubKeys : (s m : Fields) → SubKeys s m → SubKeys m s → SameKeys s m
SameKeys-of_SubKeys s m f g k = ground (arith, f k, g k)

schemas_match-parts :
    (s m : Fields) → schemas_match s m ≡ true → (size s ≡ size m) × (match_fields s m ≡ true)
unfolding schemas_match
schemas_match-parts s m h = ground arith

schemas_match-of_parts :
    (s m : Fields) → same_size s m ≡ true → match_fields s m ≡ true → schemas_match s m ≡ true
unfolding schemas_match
schemas_match-of_parts s m e f = rw (e, f)

schemas_match-SameKeys : (s m : Fields) → WellFormed s → schemas_match s m ≡ true → SameKeys s m
schemas_match-SameKeys s m wf h =
    let (e, f) = schemas_match-parts s m h in
    let sub = match_fields-SubKeys s m f in
    SameKeys-of_SubKeys s m sub (SubKeys-of_size s m wf sub e)

match_value-obj :
    (s : Fields) (o : Option Value)
    → match_value (obj s) o ≡ true
    → (m : Fields) × (o ≡ some (obj m)) × (schemas_match s m ≡ true)
unfolding schemas_match
match_value-obj s none h = cc
match_value-obj s (some (obj m)) h = (m, refl, h)
match_value-obj s (some _) h = cc

descend_into-some :
    (next : Fields → Option Fields) (o : Option Value) (s' : Fields)
    → descend_into next o ≡ some s'
    → (s1 : Fields) × (o ≡ some (obj s1)) × (next s1 ≡ some s')
descend_into-some next none s' e = cc
descend_into-some next (some (obj fs)) s' e = (fs, refl, e)
descend_into-some next (some _) s' e = cc

pub descend-cons :
    (k : String) (p : List String) (s s' : Fields)
    → descend (k ∷ p) s ≡ some s'
    → (s1 : Fields) × (lookup k s ≡ some (obj s1)) × (descend p s1 ≡ some s')
descend-cons k p s s' e = descend_into-some (descend p) (lookup k s) s' e

-- A match implies the specification: by induction on the path.
pub schemas_match-Conforms : (s m : Fields) → WellFormed s → schemas_match s m ≡ true → Conforms s m
schemas_match-Conforms s m wf h [] s' e =
    (m, refl, subst (λ x. SameKeys x m) (ground arith) (schemas_match-SameKeys s m wf h))
schemas_match-Conforms s m wf h (k ∷ p) s' e =
    let (s1, found, e1) = descend-cons k p s s' e in
    let checked = match_fields-lookup k s m (obj s1) (schemas_match-parts s m h).1 found in
    let (m1, found_m, h1) = match_value-obj s1 (lookup k m) checked in
    rw found_m (schemas_match-Conforms s1 m1 (lookup-WellFormed k s (obj s1) wf found) h1 p s' e1)

-- What the specification says of one field.
abbrev ValueConforms : Value → Option Value → Type 0
ValueConforms v o =
    (w : Value) × (o ≡ some w)
    × ((s1 : Fields) → v ≡ obj s1 → (m1 : Fields) × (w ≡ obj m1) × Conforms s1 m1)

Conforms-SameKeys : (s m : Fields) → Conforms s m → SameKeys s m
Conforms-SameKeys s m c = let (m', e, same) = c [] s refl in subst (SameKeys s) (ground arith) same

Conforms-size : (s m : Fields) → WellFormed s → WellFormed m → Conforms s m → same_size s m ≡ true
Conforms-size s m ws wm c =
    let same = Conforms-SameKeys s m c in
    let le = size-le_of_SubKeys s m ws (λ k h. sym (same k) ∙ h) in
    let ge = size-le_of_SubKeys m s wm (λ k h. same k ∙ h) in ground arith

Conforms-nested :
    (k : String) (s m s1 : Fields) (w : Value)
    → Conforms s m
    → lookup k s ≡ some (obj s1)
    → lookup k m ≡ some w
    → (m1 : Fields) × (w ≡ obj m1) × Conforms s1 m1
Conforms-nested k s m s1 w c e f =
    let (m', e', _) = c (k ∷ []) s1 (rw e) in
    let (m1, f1, _) = descend-cons k [] m m' e' in
    (m1, cc, λ p s' d. let (t, g, same) = c (k ∷ p) s' (rw e d) in (t, (rw f1 at g), same))

Conforms-value :
    (k : String) (s m : Fields) (v : Value)
    → Conforms s m
    → lookup k s ≡ some v
    → ValueConforms v (lookup k m)
Conforms-value k s m v c e =
    let (w, f) = some_of_is_some (lookup k m) (sym (Conforms-SameKeys s m c k) ∙ ap is_some e) in
    (w, f, λ s1 q. Conforms-nested k s m s1 w c (e ∙ ap some q) f)

-- The specification implies a match: by induction on the document.
mutual
  unfolding match_fields lookup

  match_fields-of_Conforms :
      (s m : Fields)
      → WellFormed s
      → WellFormed m
      → ((k : String) (v : Value) → lookup k s ≡ some v → ValueConforms v (lookup k m))
      → match_fields s m ≡ true
  match_fields-of_Conforms end m ws wm c = refl
  match_fields-of_Conforms (field k v s) m ws wm c =
      let here =
        match_value-of_Conforms v (lookup k m) ws.1 (λ w f. lookup-WellFormed k m w wm f)
          (c k v (rw ==_refl)) in
      let there =
        match_fields-of_Conforms s m ws.2 wm
          (λ j w e. c j w (lookup-field_later j k v w s ws.0 e)) in
      rw (here, there)

  match_value-of_Conforms :
      (v : Value) (o : Option Value)
      → WellFormedValue v
      → ((w : Value) → o ≡ some w → WellFormedValue w)
      → ValueConforms v o
      → match_value v o ≡ true
  match_value-of_Conforms (obj s) o ws wo (w, e, nested) =
      let (m1, e1, c) = nested s refl in
      let wm : WellFormed m1 = subst WellFormedValue e1 (wo w e) in
      rw (
        e,
        e1,
        Conforms-size s m1 ws wm c,
        match_fields-of_Conforms s m1 ws wm (λ k v f. Conforms-value k s m1 v c f),
      )
  match_value-of_Conforms _ o ws wo (w, e, nested) = rw e

-- For two documents in which no map has a key twice, schemasMatch is true exactly when every path
-- of keys that leads into a nested map of the first document leads into a nested map of the second
-- one with the same keys.
pub schemas_match_iff :
    (s m : Fields) → WellFormed s → WellFormed m → (schemas_match s m ≡ true) ↔ Conforms s m
schemas_match_iff s m ws wm = (
  schemas_match-Conforms s m ws,
  λ c.
      let fields = match_fields-of_Conforms s m ws wm (λ k v e. Conforms-value k s m v c e) in
      schemas_match-of_parts s m (Conforms-size s m ws wm c) fields,
)
