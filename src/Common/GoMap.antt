-- ===== src/Common/GoMap.antt =====
-- Go's `map[K]V`: an association list. The order of the list is the order in which one `range`
-- over the map goes; a theorem that ranges over maps ranges over these orders too.
use mathlib.Core.Path.{◌≡◌, refl}
use mathlib.Core.Logic.{◌⊎◌}
use mathlib.Core.Bool.{Bool, true, false}
use mathlib.Core.Option.{Option, none, some}
use mathlib.Core.List.{List, [], ◌∷◌}
use native.Mathlib.Omega.{arith}
use data_loom.Common.Tests.{Comparable, ◌==◌, ==_refl, if◌then◌else◌}

abbrev pub GoMap {ℓ κ} : Type ℓ → Type κ → Type (ℓ ⊔ κ)
GoMap K V = List (K × V)

abbrev pub is_some {ℓ} : {A : Type ℓ} → Option A → Bool
is_some none = false
is_some (some a) = true

pub some_of_is_some {ℓ} : {A : Type ℓ} (o : Option A) → is_some o ≡ true → (a : A) × (o ≡ some a)
some_of_is_some none h = cc
some_of_is_some (some a) h = (a, refl)

module _ {ℓ κ} {K : Type ℓ} {V : Type κ} ⦃e : Comparable K⦄ where
  -- m[k], with its `ok`
  unfoldable pub get : K → GoMap K V → Option V
  get k [] = none
  get k ((j, v) ∷ m) = if j == k then some v else get k m

  -- m[k] = v
  unfoldable pub put : K → V → GoMap K V → GoMap K V
  put k v [] = (k, v) ∷ []
  put k v ((j, w) ∷ m) = if j == k then (k, v) ∷ m else (j, w) ∷ put k v m

  -- delete(m, k)
  unfoldable pub delete : K → GoMap K V → GoMap K V
  delete k [] = []
  delete k ((j, w) ∷ m) = let rest = delete k m in if j == k then rest else (j, w) ∷ rest

  -- m[k], with the zero value where the key is missing
  abbrev pub get_or : V → K → GoMap K V → V
  get_or zero_value k m = elim (get k m) [ none ↦ zero_value | some v ↦ v ]

  -- whether the key is there
  abbrev pub has : K → GoMap K V → Bool
  has k m = is_some (get k m)

  pub get-put :
      (k j : K) (v : V) (m : GoMap K V) → get j (put k v m) ≡ (if k == j then some v else get j m)
  unfolding get put
  get-put k j v [] = refl
  get-put k j v ((i, w) ∷ m) =
      ground (arith, e.equal_iff k j, e.equal_iff i k, e.equal_iff i j, get-put k j v m)

  pub get-delete :
      (k j : K) (m : GoMap K V) → get j (delete k m) ≡ (if k == j then none else get j m)
  unfolding get delete
  get-delete k j [] = ground arith
  get-delete k j ((i, w) ∷ m) =
      ground (arith, e.equal_iff k j, e.equal_iff i k, e.equal_iff i j, get-delete k j m)

  pub get-empty : (k : K) → ◌≡◌ {A = Option V} (get k []) none
  unfolding get
  get-empty k = refl

  pub has-cons :
      (k j : K) (v : V) (m : GoMap K V) → has k ((j, v) ∷ m) ≡ true → (j ≡ k) ⊎ (has k m ≡ true)
  unfolding get
  has-cons k j v m h = ground (arith, e.equal_iff j k)

  pub has-cons_self : (k : K) (v : V) (m : GoMap K V) → has k ((k, v) ∷ m) ≡ true
  unfolding get
  has-cons_self k v m = rw ==_refl

  pub has-cons_later :
      (k j : K) (v : V) (m : GoMap K V) → has k m ≡ true → has k ((j, v) ∷ m) ≡ true
  unfolding get
  has-cons_later k j v m h = ground arith

  pub get-put_self : (k : K) (v : V) (m : GoMap K V) → get k (put k v m) ≡ some v
  get-put_self k v m = simp (get-put, ==_refl)

  -- No key stands twice: what Go's maps guarantee.
  abbrev pub Distinct : GoMap K V → Type (ℓ ⊔ κ)
  Distinct [] = Unit
  Distinct ((k, v) ∷ m) = (get k m ≡ none) × Distinct m

  pub put-Distinct : (k : K) (v : V) (m : GoMap K V) → Distinct m → Distinct (put k v m)
  unfolding put get
  put-Distinct k v [] d = (refl, tt)
  put-Distinct k v ((j, w) ∷ m) d =
      ground (arith, e.equal_iff j k, e.equal_iff k j, get-put k j v m, put-Distinct k v m d.1)

  pub delete-Distinct : (k : K) (m : GoMap K V) → Distinct m → Distinct (delete k m)
  unfolding delete
  delete-Distinct k [] d = tt
  delete-Distinct k ((j, w) ∷ m) d =
      ground (arith, e.equal_iff k j, get-delete k j m, delete-Distinct k m d.1)

  -- Each entry of a list is what a map has under its key.
  abbrev pub Entries : GoMap K V → GoMap K V → Type (ℓ ⊔ κ)
  Entries [] m = Unit
  Entries ((k, v) ∷ es) m = (get k m ≡ some v) × Entries es m

  pub Entries-cons :
      (k : K) (v : V) (es m : GoMap K V) → get k m ≡ none → Entries es m → Entries es ((k, v) ∷ m)
  unfolding get
  Entries-cons k v [] m fresh h = tt
  Entries-cons k v ((j, w) ∷ es) m fresh h =
      ground (arith, e.equal_iff k j, h.0, Entries-cons k v es m fresh h.1)

  -- Where no key stands twice, each entry is what the map has under its key.
  pub Entries-of_Distinct : (m : GoMap K V) → Distinct m → Entries m m
  Entries-of_Distinct [] d = tt
  Entries-of_Distinct ((k, v) ∷ m) d =
      (unfold get in rw ==_refl, Entries-cons k v m m d.0 (Entries-of_Distinct m d.1))
