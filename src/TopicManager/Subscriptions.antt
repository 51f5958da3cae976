-- ===== src/TopicManager/Subscriptions.antt =====
-- Who is subscribed to which topic, over the specification of the calls of
-- server/internal/topic/topic_manager.go: a call for one client leaves the others where they are.
use mathlib.Core.Option
use data_loom.Common.{
  String, ◌≡◌, ◌≢◌, refl, ap, sym, ◌∙◌, inl, inr, Bool, true, false, arith, Option, none, some,
  ◌==◌, ==_iff, Bool-cases, string_eq, nat_eq,
}
use data_loom.Common.GoMap
use data_loom.Schema.{Fields, schemas_match}
use data_loom.Network.{Client, client_eq}
use data_loom.Topic.{Topic, TopicSchema, is_client_subscribed}
use data_loom.Topic.Changes.{is_client_subscribed-joined, is_client_subscribed-left}
use data_loom.TopicManager.Spec
use data_loom.TopicManager.Spec.{
  left, with_next_schema, fresh_topic, update_at, put_at, register_known, register_at,
}
use data_loom.TopicManager.Valid.{View}

-- Whether a client is subscribed to what is there.
abbrev pub subscribed : Client → Option Topic → Bool
subscribed d none = false
subscribed d (some t) = is_client_subscribed d t

-- The subscriptions of everybody but `c` are the same in both maps.
abbrev pub Isolates : Client → View → View → Type 0
Isolates c w w' =
    (d : Client) (x : String) → (c == d) ≡ false → subscribed d (w' x) ≡ subscribed d (w x)

pub Isolates-same : (c : Client) (w w' : View) → ((x : String) → w' x ≡ w x) → Isolates c w w'
Isolates-same c w w' h d x other = ap (subscribed d) (h x)

subscribed-map :
    (c d : Client) (f : Topic → Topic) (o : Option Topic)
    → ((t : Topic) → is_client_subscribed d (f t) ≡ is_client_subscribed d t)
    → subscribed d (Option.map f o) ≡ subscribed d o
subscribed-map c d f none h = refl
subscribed-map c d f (some t) h = h t

Isolates-update_at :
    (c : Client) (n : String) (f : Topic → Topic) (w : View)
    → ((d : Client) (t : Topic)
        → (c == d) ≡ false
        → is_client_subscribed d (f t) ≡ is_client_subscribed d t)
    → Isolates c w (update_at n f w)
Isolates-update_at c n f w h d x other = elim (Bool-cases (n == x)) [
  | inl same ↦ rw same (subscribed-map c d f (w x) (λ t. h d t other))
  | inr differs ↦ rw differs
]

pub left_alone :
    (c d : Client) (t : Topic)
    → (c == d) ≡ false
    → is_client_subscribed d (left c t) ≡ is_client_subscribed d t
left_alone c d t other = is_client_subscribed-left c d t ∙ rw other

schema_only :
    (schema : Fields) (d : Client) (t : Topic)
    → is_client_subscribed d (with_next_schema schema t) ≡ is_client_subscribed d t
unfolding is_client_subscribed
schema_only schema d t = refl

pub nobody :
    (n : String) (schema : Fields) (d : Client)
    → is_client_subscribed d (fresh_topic n schema) ≡ false
unfolding is_client_subscribed GoMap.get
nobody n schema d = refl

module _ (c : Client) (n : String) (w : View) where
  pub Isolates-subscribe : Isolates c w (Spec.subscribe n c w).1
  Isolates-subscribe =
      Isolates-update_at c n _ w λ d t other. is_client_subscribed-joined c d t ∙ rw other

  pub Isolates-unsubscribe : Isolates c w (Spec.unsubscribe n c w).1
  Isolates-unsubscribe = Isolates-update_at c n _ w (left_alone c)

  pub Isolates-unsubscribe_all : Isolates c w (Spec.unsubscribe_all c w).1
  Isolates-unsubscribe_all d x other = subscribed-map c d _ (w x) λ t. left_alone c d t other

  module _ (schema : Fields) where
    pub Isolates-update_schema : Isolates c w (Spec.update_schema n schema w).1
    Isolates-update_schema = Isolates-update_at c n _ w λ d t other. schema_only schema d t

    Isolates-register_known :
        (r : Option TopicSchema) → Isolates c w (register_known n schema w r).1
    Isolates-register_known (some current) =
        elim (Bool-cases (schemas_match current.schema schema)) [
          | inl e ↦ rw e (Isolates-same c w w (λ x. refl))
          | inr e ↦ rw e (Isolates-same c w w (λ x. refl))
        ]
    Isolates-register_known none = Isolates-update_schema

    Isolates-register_at : (o : Option Topic) → w n ≡ o → Isolates c w (register_at n schema w o).1
    Isolates-register_at none e = λ d x other. elim (Bool-cases (n == x)) [
      | inl same ↦
          let gone = ap w (sym ((==_iff n x).0 same)) ∙ e in rw (same, gone) (nobody n schema d)
      | inr differs ↦ rw differs
    ]
    Isolates-register_at (some t) e = Isolates-register_known (GoMap.get t.latest_schema t.schemas)

    pub Isolates-register_topic : Isolates c w (Spec.register_topic n schema w).1
    Isolates-register_topic = Isolates-register_at (w n) refl

-- Taking a topic away ends subscriptions to that one only.
pub Isolates-put_none :
    (c : Client) (n : String) (w : View) (d : Client) (x : String)
    → n ≢ x
    → subscribed d (put_at n none w x) ≡ subscribed d (w x)
Isolates-put_none c n w d x ne = elim (Bool-cases (n == x)) [
  | inl same ↦ absurd (ne ((==_iff n x).0 same))
  | inr differs ↦ rw differs
]

-- Nobody but `c` is subscribed anywhere in `w'` without having been so in `w`.
abbrev pub Joins : Client → View → View → Type 0
Joins c w w' =
    (d : Client) (x : String)
    → (c == d) ≡ false
    → subscribed d (w' x) ≡ true
    → subscribed d (w x) ≡ true

pub Joins-of_Isolates : (c : Client) (w w' : View) → Isolates c w w' → Joins c w w'
Joins-of_Isolates c w w' h d x other there = sym (h d x other) ∙ there

pub Joins-put_none : (c : Client) (n : String) (w : View) → Joins c w (put_at n none w)
Joins-put_none c n w d x other there = elim (Bool-cases (n == x)) [
  | inl same ↦ absurd (ground (arith, there, same))
  | inr differs ↦
      sym (Isolates-put_none c n w d x (λ e. ground (arith, ==_iff n x, e, differs))) ∙ there
]
