-- ===== src/Common/Calls.antt =====
-- How a Go call ends, the calls in sequence, and Go's pair of a value and an error.
use Prim.Native.String.{String}
use mathlib.Core.Path.{◌≡◌, refl}

-- How a call ends: with a value, parked on a lock or a channel for as long as nobody else acts, or
-- in a panic; with the state that it leaves.
pub data Outcome {ℓ} (S A : Type ℓ) : Type ℓ where
  done : A → S → Outcome S A
  parked : S → Outcome S A
  panic : String → S → Outcome S A

abbrev pub Go {ℓ} : Type ℓ → Type ℓ → Type ℓ
Go S A = S → Outcome S A

infixl 5 ◌>>=◌ ◌>>◌
abbrev pub ◌>>=◌ {ℓ} : {S A B : Type ℓ} → Go S A → (A → Go S B) → Go S B
◌>>=◌ m f s = elim (m s) [ done a t ↦ f a t | parked t ↦ parked t | panic e t ↦ panic e t ]

abbrev pub ◌>>◌ {ℓ} : {S A B : Type ℓ} → Go S A → Go S B → Go S B
m >> k = m >>= λ _. k

-- A first call that returns hands its value and its state on.
pub bind_done {ℓ} :
    {S A B : Type ℓ} (m : Go S A) (f : A → Go S B) (s t : S) (a : A)
    → m s ≡ done a t
    → (m >>= f) s ≡ f a t
bind_done m f s t a e = rw (e, ◌>>=◌)

-- Calls in sequence, whichever two are taken together.
pub bind_assoc {ℓ} :
    {S A B C : Type ℓ} (m : Go S A) (g : A → Go S B) (f : B → Go S C) (s : S)
    → ((m >>= g) >>= f) s ≡ (m >>= λ a. g a >>= f) s
bind_assoc {S} {A} {B} {C} m g f s = by_outcome (m s)
  where
    by_outcome :
        (o : Outcome S A)
        → elim (elim o as (λ _. Outcome S B) [
          | done a t ↦ g a t
          | parked t ↦ parked t
          | panic e t ↦ panic e t
        ])
            as (λ _. Outcome S C) [ done b t ↦ f b t | parked t ↦ parked t | panic e t ↦ panic e t ]
          ≡ elim o as (λ _. Outcome S C) [
            | done a t ↦ (g a >>= f) t
            | parked t ↦ parked t
            | panic e t ↦ panic e t
          ]
    by_outcome (done a t) = refl
    by_outcome (parked t) = refl
    by_outcome (panic e t) = refl

pub bind_cong {ℓ} :
    {S A B : Type ℓ} (m : Go S A) (f g : A → Go S B) (s : S)
    → ((a : A) (t : S) → f a t ≡ g a t)
    → (m >>= f) s ≡ (m >>= g) s
bind_cong {S} {A} {B} m f g s h = by_outcome (m s)
  where
    by_outcome :
        (o : Outcome S A)
        → elim o as (λ _. Outcome S B) [
          | done a t ↦ f a t
          | parked t ↦ parked t
          | panic e t ↦ panic e t
        ]
          ≡ elim o as (λ _. Outcome S B) [
            | done a t ↦ g a t
            | parked t ↦ parked t
            | panic e t ↦ panic e t
          ]
    by_outcome (done a t) = h a t
    by_outcome (parked t) = refl
    by_outcome (panic e t) = refl

abbrev pub pure {ℓ} : {S A : Type ℓ} → A → Go S A
pure a s = done a s

abbrev pub gets {ℓ} : {S A : Type ℓ} → (S → A) → Go S A
gets f s = done (f s) s

abbrev pub modify {ℓ} : {S : Type ℓ} → (S → S) → S → Outcome S (Unit {ℓ})
modify f s = done tt (f s)

-- A call on a part of the state: of a field, of what a pointer refers to.
abbrev pub zoom {ℓ} : {S T A : Type ℓ} → (T → S) → (S → T → T) → Go S A → Go T A
zoom part write m t = elim (m (part t)) [
  | done a s ↦ done a (write s t)
  | parked s ↦ parked (write s t)
  | panic e s ↦ panic e (write s t)
]

-- `(T, error)`; an error is known by its text.
pub data Result {ℓ} (A : Type ℓ) : Type ℓ where
  ok : A → Result A
  err : String → Result A
