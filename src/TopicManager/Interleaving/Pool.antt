-- ===== src/TopicManager/Interleaving/Pool.antt =====
-- The topics of server/internal/topic/topic_manager.go as a pool that only grows, and the pointers that
-- calls under way hold into it.
use data_loom.Common.{
  ℕ, ◌≤◌, String, ◌≡◌, refl, ap, sym, subst, ◌∙◌, inl, inr, Option, none, some, List, [], ◌∷◌, ◌++◌,
  arith, Outcome, done, parked, panic, length, get_elem?, set, get_elem?-set_self, get_elem?-set_ne,
  get_elem?-set-none, ◌==◌, ==_iff, Bool-cases, Option-cases, nat_eq, string_eq, pure, ◌>>=◌,
}
use data_loom.Common.GoMap
use data_loom.Common.GoMap.{GoMap, get-put, get-delete, get-empty, Entries, Entries-of_Distinct}
use data_loom.Schema.{Fields}
use data_loom.Logging.{unlocked}
use data_loom.Network.{Client}
use data_loom.Topic
use data_loom.Topic.{Topic}
use data_loom.Topic.Versions
use data_loom.TopicManager.{TopicManager, failed_capacity, on_topic}
use data_loom.TopicManager.Methods.{writing}
use data_loom.TopicManager.Valid.{IsValid, on_topic_lem, write_heap}
use data_loom.TopicManager.Interleaving.{
  Pending, subscribing, unsubscribing, leaving, updating, adding, assigning, comparing, and_left,
}

-- A pointer to a topic that was allocated.
abbrev pub Points : List Topic → ℕ → Type 0
Points heap p = (t : Topic) × (get_elem? heap p ≡ some t)

abbrev pub AllPoint : List Topic → List ℕ → Type 0
AllPoint heap [] = Unit
AllPoint heap (p ∷ ps) = Points heap p × AllPoint heap ps

-- The pointers of a call under way.
abbrev pub Holds : List Topic → Pending → Type 0
Holds heap (subscribing p c) = Points heap p
Holds heap (unsubscribing p c) = Points heap p
Holds heap (leaving ps c) = AllPoint heap ps
Holds heap (updating p schema) = Points heap p
Holds heap (adding n schema) = Unit
Holds heap (assigning n schema) = Unit
Holds heap (comparing p schema) = Points heap p

abbrev pub HoldsLeft : List Topic → Option Pending → Type 0
HoldsLeft heap none = Unit
HoldsLeft heap (some p) = Holds heap p

abbrev pub AllHold : List Topic → List Pending → Type 0
AllHold heap [] = Unit
AllHold heap (p ∷ ps) = Holds heap p × AllHold heap ps

-- A topic is never freed.
abbrev pub Grows : List Topic → List Topic → Type 0
Grows heap heap' = (p : ℕ) → Points heap p → Points heap' p

pub AllPoint-grow : (h h' : List Topic) (ps : List ℕ) → Grows h h' → AllPoint h ps → AllPoint h' ps
AllPoint-grow h h' [] g a = tt
AllPoint-grow h h' (p ∷ ps) g a = (g p a.0, AllPoint-grow h h' ps g a.1)

Holds-grow : (h h' : List Topic) (p : Pending) → Grows h h' → Holds h p → Holds h' p
Holds-grow h h' (subscribing p c) g a = g p a
Holds-grow h h' (unsubscribing p c) g a = g p a
Holds-grow h h' (leaving ps c) g a = AllPoint-grow h h' ps g a
Holds-grow h h' (updating p schema) g a = g p a
Holds-grow h h' (adding n schema) g a = tt
Holds-grow h h' (assigning n schema) g a = tt
Holds-grow h h' (comparing p schema) g a = g p a

pub AllHold-grow :
    (h h' : List Topic) (ps : List Pending) → Grows h h' → AllHold h ps → AllHold h' ps
AllHold-grow h h' [] g a = tt
AllHold-grow h h' (p ∷ ps) g a = (Holds-grow h h' p g a.0, AllHold-grow h h' ps g a.1)

AllHold-append :
    (h : List Topic) (ps qs : List Pending) → AllHold h ps → AllHold h qs → AllHold h (ps ++ qs)
AllHold-append h [] qs a b = b
AllHold-append h (p ∷ ps) qs a b = (a.0, AllHold-append h ps qs a.1 b)

pub AllHold-split :
    (h : List Topic) (before after : List Pending) (p : Pending)
    → AllHold h (before ++ p ∷ after)
    → Holds h p × AllHold h (before ++ after)
AllHold-split h [] after p a = a
AllHold-split h (q ∷ before) after p a =
    let (here, others) = AllHold-split h before after p a.1 in (here, (a.0, others))

pub AllHold-and_left :
    (h : List Topic) (ps : List Pending) (left : Option Pending)
    → AllHold h ps
    → HoldsLeft h left
    → AllHold h (and_left ps left)
AllHold-and_left h ps none a l = a
AllHold-and_left h ps (some p) a l = AllHold-append h ps (p ∷ []) a (l, tt)

-- Every topic ever allocated is well-formed, and each name leads to one of that name.
pub record Pool {S : Type 0} (tm : TopicManager S) : Type 0 where
  pub free : tm.mu ≡ unlocked
  pub all_valid : (p : ℕ) (t : Topic) → get_elem? tm.heap p ≡ some t → Versions.IsValid t
  pub named :
      (n : String) (p : ℕ)
      → GoMap.get n tm.topics ≡ some p
      → (t : Topic) × (get_elem? tm.heap p ≡ some t) × (t.name ≡ n)
  pub distinct : GoMap.Distinct tm.topics
  pub bounded : length tm.failed_clients ≤ failed_capacity

-- A method of a topic that keeps it well-formed and keeps its name.
abbrev pub Keeps : {A : Type 0} → (Topic → A × Topic) → Type 0
Keeps f = (t : Topic) → Versions.IsValid t → ((f t).1.name ≡ t.name) × Versions.IsValid (f t).1

pub subscribe-Keeps : (c : Client) → Keeps (writing (Topic.subscribe c))
unfolding Topic.subscribe
subscribe-Keeps c t v = (refl, Versions.subscribe-IsValid c t v)

pub unsubscribe-Keeps : (c : Client) → Keeps (Topic.unsubscribe c)
unsubscribe-Keeps c t v = Versions.unsubscribe_keeps c t v

pub update_schema-Keeps : (schema : Fields) → Keeps (writing (Topic.update_schema schema))
unfolding Topic.update_schema
update_schema-Keeps schema t v = (refl, Versions.update_schema-IsValid schema t v)

pub get_latest_schema-Keeps : Keeps Topic.get_latest_schema
get_latest_schema-Keeps t v =
    let (s, e, _, _) = Versions.get_latest_schema_valid t v in
    (ap (λ r. r.1.name) e, subst Versions.IsValid (sym (ap (λ r. r.1) e)) v)

module _ {S : Type 0} where
  pub Pool-IsValid : (tm : TopicManager S) → Pool tm → IsValid tm
  Pool-IsValid tm v = record {
    free = v.free;
    resolves = λ n p e. let (t, at, name) = v.named n p e in (t, at, name, v.all_valid p t at);
    distinct = v.distinct;
    bounded = v.bounded;
  }

  -- What a step leaves.
  abbrev pub Left : TopicManager S → Option Pending → TopicManager S → Type 0
  Left tm left tm' = Pool tm' × Grows tm.heap tm'.heap × HoldsLeft tm'.heap left

  -- The call returns, with what `P` says.
  abbrev pub Ends :
      {A : Type 0} → (A → TopicManager S → Type 0) → Outcome (TopicManager S) A → Type 0
  Ends P (done a tm) = P a tm
  Ends P (parked tm) = ⊥
  Ends P (panic e tm) = ⊥

  module _ {A : Type 0} (tm : TopicManager S) (v : Pool tm) (p : ℕ) (f : Topic → A × Topic)
      (keeps : Keeps f) (t : Topic) (at : get_elem? tm.heap p ≡ some t) where
    abbrev t' : Topic
    t' = (f t).1

    -- What stands at a place after the write.
    written_at :
        (q : ℕ) (u : Topic)
        → get_elem? tm.heap q ≡ some u
        → (u' : Topic) × (get_elem? (set tm.heap p t') q ≡ some u')
          × (u'.name ≡ u.name)
          × Versions.IsValid u'
    written_at q u e = elim (Bool-cases (p == q)) [
      | inl same ↦
          let pq = (==_iff p q).0 same in
          let tu : some t ≡ some u = sym at ∙ ap (get_elem? tm.heap) pq ∙ e in
          (
            t',
            subst (λ x. get_elem? (set tm.heap p t') x ≡ some t') pq
                (get_elem?-set_self tm.heap p t' t at),
            ground (arith, (keeps t (v.all_valid p t at)).0, tu),
            (keeps t (v.all_valid p t at)).1,
          )
      | inr other ↦ (
        u,
        get_elem?-set_ne tm.heap p q t' (λ x. ground (arith, ==_iff p q)) ∙ e,
        refl,
        v.all_valid q u e,
      )
    ]

    written-IsValid :
        (q : ℕ) (u : Topic) → get_elem? (set tm.heap p t') q ≡ some u → Versions.IsValid u
    written-IsValid q u e = elim (Option-cases (get_elem? tm.heap q)) [
      | inl gone ↦ absurd (ground (arith, get_elem?-set-none tm.heap p q t' gone, e))
      | inr (w, there) ↦
          let (w', at', _, valid) = written_at q w there in
          let same : some w' ≡ some u = sym at' ∙ e in
          let same' : w' ≡ u = cc in subst Versions.IsValid same' valid
    ]

    Pool-write : Pool (write_heap p t' tm)
    Pool-write = record {
      free = v.free;
      all_valid = written-IsValid;
      named = λ n q e.
          let (u, there, name) = v.named n q e in
          let (u', there', name', _) = written_at q u there in (u', there', name' ∙ name);
      distinct = v.distinct;
      bounded = v.bounded;
    }

    Grows-write : Grows tm.heap (set tm.heap p t')
    Grows-write q (u, there) = let (u', there', _, _) = written_at q u there in (u', there')

    -- The work on a topic returns.
    worked :
        (done (f t).0 (write_heap p t' tm) ≡ on_topic p f tm)
        × Pool (write_heap p t' tm)
        × Grows tm.heap (set tm.heap p t')
    worked = (sym (on_topic_lem p f tm t at), Pool-write, Grows-write)

  -- A step that works on one topic, and then has `left` to do.
  pub topic_step :
      {A : Type 0} (tm : TopicManager S) (p : ℕ) (f : Topic → A × Topic) (left : A → Option Pending)
      → Pool tm
      → Keeps f
      → Points tm.heap p
      → ((a : A) (h : List Topic) → Grows tm.heap h → HoldsLeft h (left a))
      → Ends (Left tm) ((on_topic p f >>= λ a. pure (left a)) tm)
  topic_step tm p f left v keeps (t, at) holds =
      let (e, pool, grows) = worked tm v p f keeps t at in
      subst
        (λ o. Ends (Left tm) (elim o as (λ _. Outcome (TopicManager S) (Option Pending)) [
          | done a t ↦ done (left a) t
          | parked t ↦ parked t
          | panic e t ↦ panic e t
        ]))
        e (pool, grows, holds _ _ grows)
