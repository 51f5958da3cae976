-- ===== src/Server/Conversing.antt =====
-- handleWebSocket of server/internal/server/server.go over a whole connection: the messages that are
-- read, then the end.
use mathlib.Core.Option
use data_loom.Common.{
  ℕ, String, ◌≡◌, ◌≢◌, refl, ap, sym, subst, ◌∙◌, true, false, Option, none, some, List, [], ◌∷◌,
  ◌++◌, arith, done, ◌==◌, ==_refl, if◌then◌else◌, bind_done, string_eq,
}
use data_loom.Network.{
  Client, client_eq, WriteJson, close_error, syntax_error, type_error, other_error,
}
use data_loom.Network.Hub.{add_client, remove_client, get_client}
use data_loom.Storage.{Storage}
use data_loom.Topic.{Topic}
use data_loom.Topic.Changes.{is_client_subscribed-left}
use data_loom.TopicManager.Valid.{view}
use data_loom.TopicManager.UnsubscribeAll.{unsubscribe_all_refines}
use data_loom.TopicManager.Spec.{left}
use data_loom.Server.{Server, handle_socket_error, unreadable}
use data_loom.Server.Sending.{after_write, send_succeeds}
use data_loom.Server.Routing.{handlers, route_message}
use data_loom.Server.Connection.{
  Request, Fresh, Read, received, broken, closed, authorized, claimed_id, handle_web_socket,
  read_loop, converse,
}
use data_loom.Server.Answers.{Answers, environs}
use data_loom.Server.Closing.{get_client-remove_client}
use data_loom.TopicManager.Subscriptions.{subscribed, Isolates, Isolates-unsubscribe_all}
use data_loom.Server.Serving.{InOrder}
use data_loom.Server.Serving.Actions.{route_message-Serves}
use data_loom.Storage.Answering.{Total}

-- A read after which the connection goes on: a message that does not unregister a topic, or an error
-- that is not a closed connection.
abbrev pub GoesOn : Read → Type 0
GoesOn (received msg) = msg.action ≢ "unregisterTopic"
GoesOn (broken (close_error code text)) = ⊥
GoesOn (broken e) = Unit

abbrev pub AllGoOn : List Read → Type 0
AllGoOn [] = Unit
AllGoOn (r ∷ rs) = GoesOn r × AllGoOn rs

pub left_none : (c : Client) (o : Option Topic) → subscribed c (Option.map (left c) o) ≡ false
left_none c none = refl
left_none c (some u) = is_client_subscribed-left c c u ∙ rw (==_refl c)

-- The subscriptions of everybody but `c` are as before.
abbrev pub Alone : {S : Type 0} → Client → Server S → Server S → Type 0
Alone c s s' = Isolates c (view s.world.tm) (view s'.world.tm)

-- The end of a conversation: the server in order, the client in no topic, the others where they were.
abbrev pub Ended : {S : Type 0} → (S → Type 0) → Client → Server S → Server S → Type 0
Ended Open c s s' =
    InOrder Open s' × ((x : String) → subscribed c (view s'.world.tm x) ≡ false) × Alone c s s'

module _ {S : Type 0} (Open : S → Type 0) (storage : Storage S) (total : Total storage Open)
    (wj : WriteJson) (n : ℕ) (quiet : Answers wj) where
  -- The loop over such reads, up to whatever is read after them.
  reads_served :
      (c : Client) (rs after : List Read) (s : Server S)
      → InOrder Open s
      → AllGoOn rs
      → (s' : Server S) × (read_loop storage
            (environs wj n)
            (handlers storage (environs wj n))
            c
            (rs ++ after)
            s
          ≡ read_loop storage (environs wj n) (handlers storage (environs wj n)) c after s')
        × InOrder Open s'
        × (s'.hub ≡ s.hub)
        × Alone c s s'
  unfolding read_loop handle_socket_error unreadable
  reads_served c [] after s v h = (s, refl, v, refl, λ d x other. refl)
  reads_served c (received msg ∷ rs) after s v h =
      let r = route_message-Serves Open storage total wj n quiet c msg s v (λ a. absurd (h.0 a)) in
      let (s2, f, v2, hub2, alone) = reads_served c rs after r.after r.in_order h.1 in
      (
        s2,
        bind_done (route_message storage (environs wj n) (handlers storage (environs wj n)) c msg)
              (λ _.
                read_loop storage (environs wj n) (handlers storage (environs wj n)) c
                  (rs ++ after))
              s r.after tt r.returns
            ∙ f,
        v2,
        hub2 ∙ r.keeps_hub,
        λ d x other. alone d x other ∙ r.isolates h.0 d x other,
      )
  reads_served c (broken (close_error code text) ∷ rs) after s v h = absurd h.0
  reads_served c (broken (other_error text) ∷ rs) after s v h = reads_served c rs after s v h.1
  reads_served c (broken (syntax_error text) ∷ rs) after s v h =
      let (s2, f, v2, hub2, alone) =
        reads_served c rs after (after_write wj c (unreadable text) s)
          (record { valid = v.valid; opened = v.opened }) h.1 in
      (
        s2,
        ground (arith, send_succeeds wj n c (unreadable text) s (quiet _ c _), f),
        v2,
        hub2,
        alone,
      )
  reads_served c (broken (type_error text) ∷ rs) after s v h =
      let (s2, f, v2, hub2, alone) =
        reads_served c rs after (after_write wj c (unreadable text) s)
          (record { valid = v.valid; opened = v.opened }) h.1 in
      (
        s2,
        ground (arith, send_succeeds wj n c (unreadable text) s (quiet _ c _), f),
        v2,
        hub2,
        alone,
      )

  module _ (code : ℕ) (text : String) (rest : List Read) (r : Request) (fresh : Fresh)
      (address : ℕ) where
    abbrev pub client : Client
    client = record { address = address; id = fresh.own_id }

    abbrev reads : List Read → List Read
    reads rs = rs ++ broken (close_error code text) ∷ rest

    conversation_ends :
        (rs : List Read) (s : Server S)
        → InOrder Open s
        → AllGoOn rs
        → (s' : Server S) × (read_loop storage
              (environs wj n)
              (handlers storage (environs wj n))
              client
              (reads rs)
              s
            ≡ done tt s')
          × (s'.hub ≡ s.hub)
          × Ended Open client s s'
    unfolding read_loop handle_socket_error
    conversation_ends rs s v h =
        let (s1, e, v1, hub, alone) =
          reads_served client rs (broken (close_error code text) ∷ rest) s v h in
        let f = unsubscribe_all_refines s1.world.tm client v1.valid in
        (
          record s1 { world = record s1.world { tm = f.after } },
          e ∙ ground (arith, f.returns),
          hub,
          (
            record { valid = f.valid; opened = subst Open (sym f.keeps_db) v1.opened },
            λ x. ap (subscribed client) (f.sees x) ∙ left_none client (view s1.world.tm x),
            λ d x other.
                ap (subscribed d) (f.sees x)
                ∙ Isolates-unsubscribe_all client "" (view s1.world.tm) d x other
                ∙ alone d x other,
          ),
        )

    -- An authorized request whose claimed id is not in use and whose connection is upgraded, at a
    -- server in order, with any messages but unregisterTopic and any read errors but a close, then
    -- a close: where the storage's calls return while it is open and responses are written without
    -- an error, handleWebSocket returns, the server is in order, the client is in no topic, every
    -- other client is in the topics it was in, and the hub is as before without the client's own
    -- id.
    pub connection_served :
        (rs : List Read) (s : Server S)
        → InOrder Open s
        → AllGoOn rs
        → authorized s.config r ≡ true
        → get_client (claimed_id r fresh) s.hub ≡ none
        → fresh.upgraded ≡ some address
        → (s' : Server S) × (handle_web_socket storage
              (environs wj n)
              (handlers storage (environs wj n))
              r
              fresh
              (reads rs)
              s
            ≡ done closed s')
          × ((x : String)
              → get_client x s'.hub ≡ (if fresh.own_id == x then none else get_client x s.hub))
          × Ended Open client s s'
    unfolding handle_web_socket converse
    connection_served rs s v h allowed unused upgraded =
        let (s1, e, hub, ended) =
          conversation_ends rs (record s { hub = add_client client s.hub })
            (record { valid = v.valid; opened = v.opened }) h in
        let (v1, gone, alone) = ended in
        (
          record s1 { hub = remove_client client s1.hub },
          ground (arith, allowed, unused, upgraded, e),
          (λ x.
              ap (λ hub. get_client x (remove_client client hub)) hub
              ∙ get_client-remove_client x client s.hub),
          (record { valid = v1.valid; opened = v1.opened }, gone, alone),
        )
