-- ===== src/TopicManager/Interleaving/Races.antt =====
-- Two RegisterTopic calls of server/internal/topic/topic_manager.go for one new name: both find nothing
-- before either has written the map.
use data_loom.Common.{
  String, ◌≡◌, refl, ap, ◌∙◌, inl, inr, true, false, none, some, arith, done, ok, ==_refl,
  string_eq,
}
use data_loom.Common.GoMap
use data_loom.Schema.{Fields}
use data_loom.Network.{Client, client_eq}
use data_loom.Topic
use data_loom.Topic.{Topic, is_client_subscribed}
use data_loom.Topic.Changes.{is_client_subscribed-joined, new_topic-eq-fresh_topic}
use data_loom.TopicManager.{TopicManager}
use data_loom.TopicManager.Methods
use data_loom.TopicManager.Methods.{register_new}
use data_loom.TopicManager.Subscriptions.{subscribed, nobody}
use data_loom.TopicManager.Valid.{view, IsValid, find_topic_lem}
use data_loom.TopicManager.Refinement.{Found-cases, subscribe_refines}
use data_loom.TopicManager.Registration.{added, added-IsValid, view-added}
use data_loom.TopicManager.Interleaving.{register_topic, adding, assigning, begin, act}

module _ {S : Type 0} (tm : TopicManager S) (v : IsValid tm) (n : String)
    (unseen : view tm n ≡ none) where
  missing : GoMap.get n tm.topics ≡ none
  missing = elim (Found-cases tm n v) [
    | inl (e, _) ↦ e
    | inr (p, t, h) ↦ absurd (ground (arith, h.seen, unseen))
  ]

  finds_nothing :
      (schema : Fields) → begin (register_topic n schema) tm ≡ done (some (adding n schema)) tm
  unfolding begin
  finds_nothing schema = ground (arith, find_topic_lem n tm v.free, missing)

  starts :
      (schema : Fields) (m : TopicManager S)
      → act (adding n schema) m ≡ done (some (assigning n schema)) m
  unfolding act
  starts schema m = refl

  adds :
      (m : TopicManager S) (w : IsValid m) (schema : Fields)
      → act (assigning n schema) m ≡ done none (added n schema m w)
  unfolding act register_new
  adds m w schema = refl

  -- From a manager in order without the topic, two calls of RegisterTopic can both find nothing;
  -- the first adds its topic, a client subscribes with success and is subscribed, and then the
  -- second, in a write of its own, puts its own new topic in the place: the client is not
  -- subscribed any more.
  pub registration_race :
      (a b : Fields) (c : Client)
      → (tm1 tm2 tm3 : TopicManager S) × (begin (register_topic n a) tm
          ≡ done (some (adding n a)) tm)
        × (begin (register_topic n b) tm ≡ done (some (adding n b)) tm)
        × (act (adding n a) tm ≡ done (some (assigning n a)) tm)
        × (act (assigning n a) tm ≡ done none tm1)
        × (Methods.subscribe n c tm1 ≡ done (ok tt) tm2)
        × (subscribed c (view tm2 n) ≡ true)
        × (act (adding n b) tm2 ≡ done (some (assigning n b)) tm2)
        × (act (assigning n b) tm2 ≡ done none tm3)
        × (view tm3 n ≡ some (Topic.new_topic n b))
        × (subscribed c (view tm3 n) ≡ false)
  registration_race a b c =
      let tm1 = added n a tm v in
      let v1 = added-IsValid n a tm v in
      let there : view tm1 n ≡ some (Topic.new_topic n a) =
        view-added n a tm v n ∙ rw (==_refl n) in
      let f = subscribe_refines tm1 n c v1 in
      let tm3 = added n b f.after f.valid in
      let now : view tm3 n ≡ some (Topic.new_topic n b) =
        view-added n b f.after f.valid n ∙ rw (==_refl n) in
      (
        tm1,
        f.after,
        tm3,
        finds_nothing a,
        finds_nothing b,
        starts a tm,
        adds tm v a,
        f.returns ∙ ground (arith, there),
        ap (subscribed c) (f.sees n)
            ∙ rw (==_refl n, there)
                (is_client_subscribed-joined c c (Topic.new_topic n a) ∙ rw (==_refl c)),
        starts b f.after,
        adds f.after f.valid b,
        now,
        ap (subscribed c) now
            ∙ ap (is_client_subscribed c) (new_topic-eq-fresh_topic n b)
            ∙ nobody n b c,
      )
