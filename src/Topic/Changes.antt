-- ===== src/Topic/Changes.antt =====
-- What the methods of server/internal/topic/topic.go do to a topic, against the changes that the
-- specification of the topic manager promises.
use data_loom.Common.{
  String, ◌≡◌, refl, ap, sym, ==_refl, inl, inr, true, false, none, [], ◌∷◌, arith, err, ◌==◌,
  if◌then◌else◌, Option-cases, Bool-cases, Comparable,
}
use data_loom.Common.GoMap
use data_loom.Common.GoMap.{GoMap, get-put, get-delete}
use data_loom.Schema.{Fields}
use data_loom.Network.{Client, client_eq}
use data_loom.Topic
use data_loom.Topic.{Topic, is_client_subscribed}
use data_loom.TopicManager.Spec.{joined, left, left_answer, with_next_schema, fresh_topic}

pub subscribe-eq-joined : (c : Client) (t : Topic) → Topic.subscribe c t ≡ joined c t
unfolding Topic.subscribe
subscribe-eq-joined c t = refl

pub update_schema-eq-with_next_schema :
    (schema : Fields) (t : Topic) → Topic.update_schema schema t ≡ with_next_schema schema t
unfolding Topic.update_schema
update_schema-eq-with_next_schema schema t = refl

pub new_topic-eq-fresh_topic :
    (n : String) (schema : Fields) → Topic.new_topic n schema ≡ fresh_topic n schema
unfolding Topic.new_topic GoMap.put
new_topic-eq-fresh_topic n schema = refl

-- A key that is not there is deleted without a change.
delete_missing {ℓ κ} :
    {K : Type ℓ} {V : Type κ} ⦃e : Comparable K⦄ (k : K) (m : GoMap K V)
    → GoMap.get k m ≡ none
    → GoMap.delete k m ≡ m
unfolding GoMap.delete GoMap.get
delete_missing k [] h = refl
delete_missing k ((j, v) ∷ m) h = elim (Bool-cases (j == k)) [
  | inl same ↦ absurd (ground (arith, h, same))
  | inr other ↦ rw other (ap (◌∷◌ (j, v)) (delete_missing k m (ground (arith, h, other))))
]

pub unsubscribe-eq-left :
    (c : Client) (t : Topic) → Topic.unsubscribe c t ≡ (left_answer c t, left c t)
unfolding Topic.unsubscribe
unsubscribe-eq-left c t = elim (Option-cases (GoMap.get c t.subscribers)) [
  | inl e ↦
      rw (e, Topic.unsubscribe)
        (ap (λ m. (err (Topic.not_subscribed t c), record t { subscribers = m }))
          (sym (delete_missing c t.subscribers e)))
  | inr (b, e) ↦ rw (e, Topic.unsubscribe) refl
]

-- Who is subscribed after a change.
pub is_client_subscribed-left :
    (c d : Client) (t : Topic)
    → is_client_subscribed d (left c t) ≡ (if c == d then false else is_client_subscribed d t)
unfolding is_client_subscribed
is_client_subscribed-left c d t = rw get-delete (ground arith)

pub is_client_subscribed-joined :
    (c d : Client) (t : Topic)
    → is_client_subscribed d (joined c t) ≡ (if c == d then true else is_client_subscribed d t)
unfolding is_client_subscribed
is_client_subscribed-joined c d t = rw get-put (ground arith)

pub left_idem : (c : Client) (t : Topic) → left c (left c t) ≡ left c t
left_idem c t =
    ap (λ m. record t { subscribers = m })
      (delete_missing c (GoMap.delete c t.subscribers) (rw (get-delete, ==_refl c)))
