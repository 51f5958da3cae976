-- ===== src/TopicManager/UnsubscribeAll.antt =====
-- UnsubscribeAll of server/internal/topic/topic_manager.go: the loop over the pointers.
use mathlib.Core.Option
use data_loom.Common.{
  ℕ, String, ◌≡◌, refl, ap, sym, ◌∙◌, inl, inr, some, [], ◌∷◌, map, arith, done, ◌==◌, ==_iff,
  if◌then◌else◌, Bool-cases, Option-cases, string_eq,
}
use data_loom.Common.GoMap
use data_loom.Common.GoMap.{GoMap, Entries, Entries-of_Distinct}
use data_loom.Logging.{unlocked}
use data_loom.Network.{Client}
use data_loom.Topic
use data_loom.Topic.{Topic}
use data_loom.Topic.Changes.{unsubscribe-eq-left, left_idem}
use data_loom.Topic.Versions
use data_loom.TopicManager.{TopicManager}
use data_loom.TopicManager.Methods
use data_loom.TopicManager.Valid.{
  View, view, IsValid, with_free, on_topic_lem, write_heap, IsValid-write, view-write,
}
use data_loom.TopicManager.Spec
use data_loom.TopicManager.Spec.{left}
use data_loom.TopicManager.Refinement.{Refines}

left_keeps :
    (c : Client) (t : Topic)
    → Versions.IsValid t
    → ((left c t).name ≡ t.name) × Versions.IsValid (left c t)
left_keeps c t v = (refl, record { cached = v.cached; numbered = v.numbered })

-- What the loop has done for the entries `es`.
record Swept {S : Type 0} (es : GoMap String ℕ) (c : Client) (tm : TopicManager S) : Type 0 where
  after : TopicManager S
  returns : Methods.unsubscribe_each (map (λ e. e.1) es) c tm ≡ done tt after
  valid : IsValid after
  sees :
      (x : String)
      → view after x ≡ (if GoMap.has x es then Option.map (left c) (view tm x) else view tm x)
  keeps_topics : after.topics ≡ tm.topics
  keeps_db : after.db ≡ tm.db
  keeps_failed : after.failed_clients ≡ tm.failed_clients

-- One round: the topic under `n` is written, and the rest of the loop goes on from there.
sees_step :
    (n x : String) (p : ℕ) (c : Client) (es : GoMap String ℕ) (w w1 w2 : View) (t : Topic)
    → w n ≡ some t
    → ((y : String) → w1 y ≡ (if n == y then some (left c t) else w y))
    → ((y : String) → w2 y ≡ (if GoMap.has y es then Option.map (left c) (w1 y) else w1 y))
    → w2 x ≡ (if GoMap.has x ((n, p) ∷ es) then Option.map (left c) (w x) else w x)
unfolding GoMap.get
sees_step n x p c es w w1 w2 t at step rest = elim (Bool-cases (n == x)) [
  | inl e ↦
      let same = ap w (sym ((==_iff n x).0 e)) ∙ at in
      ground (arith, e, same, step x, rest x, ap some (left_idem c t))
  | inr e ↦ ground (arith, e, step x, rest x)
]

module _ {S : Type 0} where
  sweep :
      (es : GoMap String ℕ) (c : Client) (tm : TopicManager S)
      → IsValid tm
      → Entries es tm.topics
      → Swept es c tm
  unfolding Methods.unsubscribe_each
  sweep [] c tm v h = record {
    after = tm;
    returns = refl;
    valid = v;
    sees = λ x. unfold GoMap.get in refl;
    keeps_topics = refl;
    keeps_db = refl;
    keeps_failed = refl;
  }
  sweep ((n, p) ∷ es) c tm v h =
      let (t, at, name, vt) = v.resolves n p h.0 in
      let (named, vt') = left_keeps c t vt in
      let tm1 = write_heap p (left c t) tm in
      let r = sweep es c tm1 (IsValid-write tm v n p t (left c t) h.0 at named vt') h.1 in
      record {
        after = r.after;
        returns = ground (
          arith,
          on_topic_lem p (Topic.unsubscribe c) tm t at,
          unsubscribe-eq-left c t,
          r.returns,
        );
        valid = r.valid;
        sees = λ x.
            sees_step n x p c es (view tm) (view tm1) (view r.after) t (unfold view in rw h.0 at)
              (view-write tm v n p t (left c t) h.0 at named) r.sees;
        keeps_topics = r.keeps_topics;
        keeps_db = r.keeps_db;
        keeps_failed = r.keeps_failed;
      }

  pub copy_topics_lem :
      (tm : TopicManager S)
      → tm.mu ≡ unlocked
      → Methods.copy_topics tm ≡ done (map (λ e. e.1) tm.topics) tm
  unfolding Methods.copy_topics
  copy_topics_lem tm e =
      with_free (λ x. Methods.copy_topics x ≡ done (map (λ e. e.1) x.topics) x) tm e refl

  if_known :
      (tm : TopicManager S) (x : String) (f : Topic → Topic)
      → (if GoMap.has x tm.topics then Option.map f (view tm x) else view tm x)
        ≡ Option.map f (view tm x)
  unfolding view
  if_known tm x f = elim (Option-cases (GoMap.get x tm.topics)) [ inl e ↦ rw e | inr (p, e) ↦ rw e ]

  -- From a manager in order UnsubscribeAll returns with the client taken from every topic. It
  -- changes no topic in another way, nor the map's pointers, the storage and the queue of failed
  -- clients, and the manager stays in order.
  pub unsubscribe_all_refines :
      (tm : TopicManager S) (c : Client)
      → IsValid tm
      → Refines (Methods.unsubscribe_all c) tm (Spec.unsubscribe_all c (view tm))
  unfolding Methods.unsubscribe_all
  unsubscribe_all_refines tm c v =
      let r = sweep tm.topics c tm v (Entries-of_Distinct tm.topics v.distinct) in
      record {
        after = r.after;
        returns = ground (arith, copy_topics_lem tm v.free, r.returns);
        valid = r.valid;
        sees = λ x. r.sees x ∙ if_known tm x (left c);
        keeps_topics = r.keeps_topics;
        keeps_db = r.keeps_db;
        keeps_failed = r.keeps_failed;
      }
