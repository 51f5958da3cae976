-- ===== src/Server/Sweeping.antt =====
-- cleanupFailedClients of server/internal/server/server.go: which clients it removes, and from where.
use mathlib.Core.Option
use data_loom.Common.{
  ℕ, String, ◌≡◌, refl, ap, sym, subst, ◌∙◌, inl, inr, Bool, true, false, Option, none, some, List,
  [], ◌∷◌, arith, done, ◌==◌, ==_iff, if◌then◌else◌, Bool-cases, Option-cases,
}
use data_loom.Common.GoMap
use data_loom.Common.GoMap.{GoMap, get-delete}
use data_loom.Logging.{unlocked}
use data_loom.Network.{Client, client_eq}
use data_loom.Network.Hub.{ClientHub, remove_client}
use data_loom.Topic.{Topic, int_lt}
use data_loom.TopicManager.Valid.{view, IsValid}
use data_loom.TopicManager.UnsubscribeAll.{unsubscribe_all_refines}
use data_loom.TopicManager.Spec.{left}
use data_loom.Server.{Server, failed_message_threshold}
use data_loom.Server.Cleanup.{
  entries, forget_each, remove_failed, remove_each, cleanup_failed_clients,
}

-- The clients with a count for which `p` holds.
abbrev pub having : (ℕ → Bool) → List (Client × ℕ) → List Client
having p [] = []
having p ((c, fails) ∷ rest) = let others = having p rest in if p fails then c ∷ others else others

-- The clients that failed more often than the threshold allows.
abbrev pub over_threshold : List (Client × ℕ) → List Client
over_threshold = having (int_lt failed_message_threshold)

abbrev pub among : Client → List Client → Bool
among d [] = false
among d (c ∷ cs) = let later = among d cs in if c == d then true else later

-- A topic that several clients leave, one after another.
abbrev pub left_by : List Client → Option Topic → Option Topic
left_by [] o = o
left_by (c ∷ cs) o = left_by cs (Option.map (left c) o)

abbrev pub hub_without : List Client → ClientHub → ClientHub
hub_without [] hub = hub
hub_without (c ∷ cs) hub = hub_without cs (remove_client c hub)

abbrev pub deleted : List Client → GoMap Client ℕ → GoMap Client ℕ
deleted [] m = m
deleted (c ∷ cs) m = deleted cs (GoMap.delete c m)

forget_each_lem :
    (cs : List Client) (m : GoMap Client ℕ) → forget_each cs (some m) ≡ some (deleted cs m)
unfolding forget_each
forget_each_lem [] m = refl
forget_each_lem (c ∷ cs) m = forget_each_lem cs (GoMap.delete c m)

deleted_nil : (cs : List Client) → deleted cs [] ≡ []
unfolding GoMap.delete
deleted_nil [] = refl
deleted_nil (c ∷ cs) = deleted_nil cs

forgets_nil : (cs : List Client) → entries (forget_each cs none) ≡ []
unfolding forget_each
forgets_nil [] = refl
forgets_nil (c ∷ cs) = forgets_nil cs

entries-forget_each :
    (cs : List Client) (o : Option (GoMap Client ℕ))
    → entries (forget_each cs o) ≡ deleted cs (entries o)
entries-forget_each cs none = forgets_nil cs ∙ sym (deleted_nil cs)
entries-forget_each cs (some m) = ap entries (forget_each_lem cs m)

-- The count that is left of a client's.
abbrev pub kept_count : Option ℕ → Option ℕ
kept_count none = none
kept_count (some k) = if int_lt failed_message_threshold k then none else some k

pub get-deleted :
    (cs : List Client) (m : GoMap Client ℕ) (d : Client)
    → GoMap.get d (deleted cs m) ≡ (if among d cs then none else GoMap.get d m)
get-deleted [] m d = refl
get-deleted (c ∷ cs) m d = ground (arith, get-deleted cs (GoMap.delete c m) d, get-delete c d m)

among-having_missing :
    (p : ℕ → Bool) (es : List (Client × ℕ)) (d : Client)
    → GoMap.get d es ≡ none
    → among d (having p es) ≡ false
unfolding GoMap.get
among-having_missing p [] d e = refl
among-having_missing p ((c, f) ∷ rest) d e =
    ground (arith, among-having_missing p rest d (ground arith))

pub among-having :
    (p : ℕ → Bool) (es : List (Client × ℕ)) (d : Client) (k : ℕ)
    → GoMap.Distinct es
    → GoMap.get d es ≡ some k
    → among d (having p es) ≡ p k
unfolding GoMap.get
among-having p [] d k dist e = cc
among-having p ((c, f) ∷ rest) d k dist e = elim (Bool-cases (c == d)) [
  | inl same ↦
      let gone : GoMap.get d rest ≡ none =
        subst (λ x. GoMap.get x rest ≡ none) ((==_iff c d).0 same) dist.0 in
      let here : f ≡ k = ground arith in
      ground (arith, among-having_missing p rest d gone, here, same)
  | inr other ↦ ground (arith, among-having p rest d k dist.1 (ground arith), other)
]

module _ {S : Type 0} where
  -- The clients `cs` have left every topic and the hub; the counts and the lock are as they were.
  pub record Removed (cs : List Client) (s s' : Server S) : Type 0 where
    pub valid : IsValid s'.world.tm
    pub sees : (x : String) → view s'.world.tm x ≡ left_by cs (view s.world.tm x)
    pub hub : s'.hub ≡ hub_without cs s.hub
    pub net : s'.world.net ≡ s.world.net

  record Loop (es : List (Client × ℕ)) (s : Server S) : Type 0 where
    after : Server S
    returns : remove_each es s ≡ done (over_threshold es) after
    removed : Removed (over_threshold es) s after
    keeps_counts : after.failed_clients ≡ s.failed_clients
    keeps_mu : after.mu ≡ s.mu

  loop : (es : List (Client × ℕ)) (s : Server S) → IsValid s.world.tm → Loop es s
  unfolding remove_each remove_failed
  loop [] s v = record {
    after = s;
    returns = refl;
    removed = record { valid = v; sees = λ x. refl; hub = refl; net = refl };
    keeps_counts = refl;
    keeps_mu = refl;
  }
  loop ((c, fails) ∷ rest) s v = elim (Bool-cases (int_lt failed_message_threshold fails)) [
    | inl many ↦
        let f = unsubscribe_all_refines s.world.tm c v in
        let s1 = record s {
          world = record s.world { tm = f.after };
          hub = remove_client c s.hub;
        } in
        let r = loop rest s1 f.valid in
        record {
          after = r.after;
          returns = ground (arith, many, f.returns, r.returns);
          removed = rw many (record {
            valid = r.removed.valid;
            sees = λ x. r.removed.sees x ∙ ap (left_by (over_threshold rest)) (f.sees x);
            hub = r.removed.hub;
            net = r.removed.net;
          });
          keeps_counts = r.keeps_counts;
          keeps_mu = r.keeps_mu;
        }
    | inr few ↦
        let r = loop rest s v in
        record {
          after = r.after;
          returns = ground (arith, few, r.returns);
          removed = rw few r.removed;
          keeps_counts = r.keeps_counts;
          keeps_mu = r.keeps_mu;
        }
  ]

  -- The cleanup removes the clients over the threshold, and forgets their counts.
  pub cleanup_failed_clients_lem :
      (s : Server S)
      → IsValid s.world.tm
      → s.mu ≡ unlocked
      → (s' : Server S) × (cleanup_failed_clients s ≡ done tt s')
        × Removed (over_threshold (entries s.failed_clients)) s s'
        × (s'.failed_clients
            ≡ forget_each (over_threshold (entries s.failed_clients)) s.failed_clients)
        × (s'.mu ≡ unlocked)
  unfolding cleanup_failed_clients
  cleanup_failed_clients_lem s v free =
      let held = record s { mu = record { writer = true; readers = 0 } } in
      let r = loop (entries s.failed_clients) held v in
      let s' = record r.after {
        failed_clients =
            forget_each (over_threshold (entries s.failed_clients)) r.after.failed_clients;
        mu = unlocked;
      } in
      (
        s',
        ground (arith, free, r.returns, r.keeps_mu),
        record {
          valid = r.removed.valid;
          sees = r.removed.sees;
          hub = r.removed.hub;
          net = r.removed.net;
        },
        ap (forget_each (over_threshold (entries s.failed_clients))) r.keeps_counts,
        refl,
      )

  -- Where the map of failed clients was never made, nothing is done.
  pub cleanup_idle :
      (s : Server S)
      → s.mu ≡ unlocked
      → s.failed_clients ≡ none
      → cleanup_failed_clients s ≡ done tt s
  unfolding cleanup_failed_clients remove_each forget_each
  cleanup_idle s free made = ground (arith, free, made)

  -- From a server whose manager is in order, whose lock is free and whose map of failed clients, if
  -- there is one, has no key twice, cleanupFailedClients returns. Each client whose count is over
  -- the threshold has left every topic, the hub and the map of counts; every other count is as
  -- before; the manager is in order. Where the map was never made, as in a new server, nothing at
  -- all is changed.
  pub cleanup_failed_clients_counts :
      (s : Server S)
      → IsValid s.world.tm
      → s.mu ≡ unlocked
      → GoMap.Distinct (entries s.failed_clients)
      → (s' : Server S) × (cleanup_failed_clients s ≡ done tt s')
        × Removed (over_threshold (entries s.failed_clients)) s s'
        × ((c : Client)
            → GoMap.get c (entries s'.failed_clients)
              ≡ kept_count (GoMap.get c (entries s.failed_clients)))
        × ((s.failed_clients ≡ none) → s' ≡ s)
  cleanup_failed_clients_counts s v free dist =
      let m = entries s.failed_clients in
      let (s', returns, removed, counts, _) = cleanup_failed_clients_lem s v free in
      (
        s',
        returns,
        removed,
        (λ c. elim (Option-cases (GoMap.get c m)) [
          | inl e ↦
              ap (λ o. GoMap.get c (entries o)) counts
              ∙ ap (GoMap.get c) (entries-forget_each (over_threshold m) s.failed_clients)
              ∙ rw (get-deleted, e) (ground arith)
          | inr (k, e) ↦
              ap (λ o. GoMap.get c (entries o)) counts
              ∙ ap (GoMap.get c) (entries-forget_each (over_threshold m) s.failed_clients)
              ∙ rw (get-deleted, among-having (int_lt failed_message_threshold) m c k dist e, e)
                  refl
        ]),
        λ made. (let both = sym returns ∙ cleanup_idle s free made in cc),
      )
