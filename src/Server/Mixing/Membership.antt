-- ===== src/Server/Mixing/Membership.antt =====
-- Who is subscribed, and who is in the hub, while connections of server/internal/server/server.go go on
-- side by side.
use data_loom.Common.{
  none, ℕ, String, ◌≡◌, refl, ap, sym, subst, ◌∙◌, inl, inr, true, false, some, List, [], ◌∷◌,
  arith, Outcome, done, ◌==◌, ==_iff, ==_refl, if◌then◌else◌, Bool-cases, string_eq,
}
use data_loom.Common.GoMap.{get-delete, get-put}
use data_loom.Network.{Client, client_eq, WebSocketMessage, WriteJson, close_error}
use data_loom.Network.Hub.{ClientHub, add_client, remove_client, get_client}
use data_loom.Storage.{Storage}
use data_loom.Storage.Answering.{Total}
use data_loom.TopicManager.Subscriptions.{Joins, subscribed, Isolates-unsubscribe_all}
use data_loom.TopicManager.UnsubscribeAll.{unsubscribe_all_refines}
use data_loom.TopicManager.Valid.{View, view}
use data_loom.Server.{Server, handle_socket_error, send_to_client}
use data_loom.Server.Routing.{handlers, route_message}
use data_loom.Server.Answers.{Answers, environs}
use data_loom.Server.Serving.{InOrder, Unregisters}
use data_loom.Server.Serving.Actions.{route_message-Serves}
use data_loom.Server.Conversing.{left_none}
use data_loom.Server.Sweeping.{among}
use data_loom.Server.Visiting.{Quiet}
use data_loom.Server.Mixing.{Site, others, Step, opens, receives, closes, Reach, start, later}

among-others :
    (c d : Client) (cs : List Client) → (c == d) ≡ false → among d (others c cs) ≡ among d cs
among-others c d [] other = refl
among-others c d (e ∷ cs) other = elim (Bool-cases (c == e)) [
  | inl same ↦
      let ne : (e == d) ≡ false = subst (λ x. (x == d) ≡ false) ((==_iff c e).0 same) other in
      ground (arith, same, ne, among-others c d cs other)
  | inr differs ↦ ground (arith, differs, among-others c d cs other)
]

-- The clients of every topic are connected.
abbrev pub SubscribersAmong : List Client → View → Type 0
SubscribersAmong cs w = (d : Client) (x : String) → subscribed d (w x) ≡ true → among d cs ≡ true

-- What the hub has under an id is a connected client of that id.
abbrev pub HubAmong : List Client → ClientHub → Type 0
HubAmong cs hub =
    (x : String) (d : Client) → get_client x hub ≡ some d → (d.id ≡ x) × (among d cs ≡ true)

pub record Settled {S : Type 0} (Open : S → Type 0) (s : Site S) : Type 0 where
  pub in_order : InOrder Open s.server
  pub subscribers : SubscribersAmong s.connected (view s.server.world.tm)
  pub members : HubAmong s.connected s.server.hub

among-cons : (c d : Client) (cs : List Client) → among d cs ≡ true → among d (c ∷ cs) ≡ true
among-cons c d cs h = ground (arith, h)

get_client-added :
    (x : String) (c : Client) (hub : ClientHub)
    → get_client x (add_client c hub) ≡ (if c.id == x then some c else get_client x hub)
unfolding get_client add_client
get_client-added x c hub = rw get-put

HubAmong-add :
    (c : Client) (cs : List Client) (hub : ClientHub)
    → HubAmong cs hub
    → HubAmong (c ∷ cs) (add_client c hub)
HubAmong-add c cs hub h x d e = elim (Bool-cases (c.id == x)) [
  | inl same ↦
      let cd : some c ≡ some d = ground (arith, get_client-added x c hub, e, same) in
      let cd' : c ≡ d = cc in
      (ap (λ y. y.id) (sym cd') ∙ (==_iff c.id x).0 same, rw (← cd', ==_refl c))
  | inr differs ↦
      let (name, there) = h x d (ground (arith, get_client-added x c hub, e, differs)) in
      (name, among-cons c d cs there)
]

not_same : (c d : Client) (x : String) → d.id ≡ x → (c.id == x) ≡ false → (c == d) ≡ false
not_same c d x name differs = elim (Bool-cases (c == d)) [
  | inl same ↦
      let ids : c.id ≡ x = ap (λ y. y.id) ((==_iff c d).0 same) ∙ name in
      absurd (ground (arith, ==_iff c.id x, ids, differs))
  | inr other ↦ other
]

get_client-removed :
    (x : String) (c : Client) (hub : ClientHub)
    → get_client x (remove_client c hub) ≡ (if c.id == x then none else get_client x hub)
unfolding get_client remove_client
get_client-removed x c hub = rw get-delete

HubAmong-remove :
    (c : Client) (cs : List Client) (hub : ClientHub)
    → HubAmong cs hub
    → HubAmong (others c cs) (remove_client c hub)
HubAmong-remove c cs hub h x d e = elim (Bool-cases (c.id == x)) [
  | inl same ↦ absurd (ground (arith, get_client-removed x c hub, e, same))
  | inr differs ↦
      let (name, there) = h x d (ground (arith, get_client-removed x c hub, e, differs)) in
      let other = not_same c d x name differs in (name, among-others c d cs other ∙ there)
]

-- The state that a call was seen to leave is the one that its theorem names.
same_after :
    {S A : Type 0} (P : S → Type 0) (o : Outcome S A) (a b : A) (s1 s2 : S)
    → o ≡ done a s1
    → o ≡ done b s2
    → P s1
    → P s2
same_after P o a b s1 s2 e f h =
    let both : done a s1 ≡ done b s2 = sym e ∙ f in let same : s1 ≡ s2 = cc in subst P same h

module _ {S : Type 0} (Open : S → Type 0) (storage : Storage S) (total : Total storage Open)
    (wj : WriteJson) (n : ℕ) (quiet : Answers wj) where
  -- How a connection's end leaves the topics.
  abbrev Farewell : Client → Server S → Server S → Type 0
  Farewell c s s' =
      InOrder Open s'
      × (s'.hub ≡ s.hub)
      × ((x : String) → subscribed c (view s'.world.tm x) ≡ false)
      × ((d : Client) (x : String)
          → (c == d) ≡ false
          → subscribed d (view s'.world.tm x) ≡ subscribed d (view s.world.tm x))

  -- How a message leaves them.
  abbrev Message : Client → Server S → Server S → Type 0
  Message c s s' = InOrder Open s' × (s'.hub ≡ s.hub) × Joins c (view s.world.tm) (view s'.world.tm)

  farewell :
      (c : Client) (code : ℕ) (text : String) (s : Server S)
      → InOrder Open s
      → (s' : Server S) × (handle_socket_error wj
            (send_to_client wj (environs wj n).depth)
            (close_error code text)
            c
            s
          ≡ done false s')
        × Farewell c s s'
  unfolding handle_socket_error
  farewell c code text s v =
      let f = unsubscribe_all_refines s.world.tm c v.valid in
      (
        record s { world = record s.world { tm = f.after } },
        ground (arith, f.returns),
        (
          record { valid = f.valid; opened = subst Open (sym f.keeps_db) v.opened },
          refl,
          (λ x. ap (subscribed c) (f.sees x) ∙ left_none c (view s.world.tm x)),
          λ d x other.
              ap (subscribed d) (f.sees x)
              ∙ Isolates-unsubscribe_all c "" (view s.world.tm) d x other,
        ),
      )

  Step-Settled : (s t : Site S) → Step storage (environs wj n) s t → Settled Open s → Settled Open t
  Step-Settled s _ (opens r fresh address allowed unused upgraded) v = record {
    in_order = record { valid = v.in_order.valid; opened = v.in_order.opened };
    subscribers = λ d x h. among-cons _ d s.connected (v.subscribers d x h);
    members = HubAmong-add _ s.connected s.server.hub v.members;
  }
  Step-Settled s _ (receives c msg s' there known e) v =
      let r = route_message-Serves Open storage total wj n quiet c msg s.server v.in_order known in
      let (in_order, hub, joins) =
        same_after (Message c s.server) _ _ _ r.after s' r.returns e
          (r.in_order, r.keeps_hub, r.joins) in
      record {
        in_order = in_order;
        subscribers = λ d x h. elim (Bool-cases (c == d)) [
          | inl same ↦ subst (λ y. among y s.connected ≡ true) ((==_iff c d).0 same) there
          | inr other ↦ v.subscribers d x (joins d x other h)
        ];
        members = subst (HubAmong s.connected) (sym hub) v.members;
      }
  Step-Settled s _ (closes c code text s' there e) v =
      let (s1, f, w) = farewell c code text s.server v.in_order in
      let (in_order, hub, gone, kept) = same_after (Farewell c s.server) _ _ _ s1 s' f e w in
      record {
        in_order = record { valid = in_order.valid; opened = in_order.opened };
        subscribers = λ d x h. elim (Bool-cases (c == d)) [
          | inl same ↦ absurd (
              ground (
                arith,
                gone x,
                subst (λ y. subscribed y (view s'.world.tm x) ≡ true) (sym ((==_iff c d).0 same)) h,
              ))
          | inr other ↦
              among-others c d s.connected other ∙ v.subscribers d x (sym (kept d x other) ∙ h)
        ];
        members =
            HubAmong-remove c s.connected s'.hub (subst (HubAmong s.connected) (sym hub) v.members);
      }

  Reach-Settled : (s : Site S) → Reach storage (environs wj n) (Quiet Open) s → Settled Open s
  Reach-Settled _ (start s q) = record {
    in_order = q.in_order;
    subscribers = λ d x h. absurd (ground (arith, q.no_subscriber d x, h));
    members = λ x d e. absurd (ground (arith, q.no_client x, e));
  }
  Reach-Settled _ (later s t r step) = Step-Settled s t step (Reach-Settled s r)

  -- Let connections to a server in order, to which nobody was connected, go on side by side, each
  -- with its beginning, its messages and the peer's close as single steps, in any order; a topic to
  -- unregister has to be there. Where the storage's calls return while it is open and responses are
  -- written without an error: whenever they have got, the server is in order, every subscriber of
  -- every topic is a client whose connection is open, what the hub has under an id is such a client
  -- of that id, and the next message or close of any client is served to its end.
  pub mixed_connections_settle :
      (s : Site S)
      → Reach storage (environs wj n) (Quiet Open) s
      → Settled Open s
        × ((c : Client) (msg : WebSocketMessage)
            → Unregisters msg.action msg s.server
            → (s' : Server S) × (route_message storage
                  (environs wj n)
                  (handlers storage (environs wj n))
                  c
                  msg
                  s.server
                ≡ done tt s'))
        × ((c : Client) (code : ℕ) (text : String)
            → (s' : Server S) × (handle_socket_error wj
                  (send_to_client wj (environs wj n).depth)
                  (close_error code text)
                  c
                  s.server
                ≡ done false s'))
  mixed_connections_settle s r =
      let v = Reach-Settled s r in
      (
        v,
        (λ c msg known.
            let served =
              route_message-Serves Open storage total wj n quiet c msg s.server v.in_order known in
            (served.after, served.returns)),
        λ c code text. let (s', e, _) = farewell c code text s.server v.in_order in (s', e),
      )
