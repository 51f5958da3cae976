-- ===== src/Server/Visiting.antt =====
-- handleWebSocket of server/internal/server/server.go for one connection after another.
use data_loom.Common.{
  ℕ, String, ◌≡◌, refl, subst, ◌∙◌, inl, inr, true, false, none, some, List, [], ◌∷◌, ◌++◌, arith,
  Go, done, ◌==◌, ==_iff, pure, ◌>>◌, bind_done, Bool-cases, Option-cases, string_eq,
}
use data_loom.Network.{Client, client_eq, WriteJson, close_error}
use data_loom.Network.Hub.{get_client}
use data_loom.Storage.{Storage}
use data_loom.Storage.Answering.{Total}
use data_loom.TopicManager.Subscriptions.{subscribed}
use data_loom.TopicManager.Valid.{view}
use data_loom.Server.{Server, Environs}
use data_loom.Server.Routing.{handlers}
use data_loom.Server.Connection.{
  Request, Fresh, Read, broken, Served, unauthorized, not_upgraded, authorized, claimed_id,
  handle_web_socket,
}
use data_loom.Server.Answers.{Answers, environs}
use data_loom.Server.Serving.{InOrder}
use data_loom.Server.Conversing.{AllGoOn, connection_served}

-- A connection, if it comes about: what is read, and the code and text with which the peer closes it.
pub record Visit : Type 0 where
  pub request : Request
  pub fresh : Fresh
  pub reads : List Read
  pub code : ℕ
  pub text : String

abbrev pub Orderly : List Visit → Type 0
Orderly [] = Unit
Orderly (v ∷ vs) = AllGoOn v.reads × Orderly vs

module _ {S : Type 0} (storage : Storage S) (env : Environs) where
  abbrev pub visit : Visit → Go (Server S) Served
  visit v =
      handle_web_socket storage env (handlers storage env) v.request v.fresh
        (v.reads ++ broken (close_error v.code v.text) ∷ [])

  abbrev pub visit_each : List Visit → Go (Server S) (Unit {0})
  visit_each [] = pure tt
  visit_each (v ∷ vs) = do visit v; visit_each vs

-- A server in order, with nobody connected and nobody subscribed.
pub record Quiet {S : Type 0} (Open : S → Type 0) (s : Server S) : Type 0 where
  pub in_order : InOrder Open s
  pub no_client : (x : String) → get_client x s.hub ≡ none
  pub no_subscriber : (d : Client) (x : String) → subscribed d (view s.world.tm x) ≡ false

module _ {S : Type 0} (Open : S → Type 0) (storage : Storage S) (total : Total storage Open)
    (wj : WriteJson) (n : ℕ) (quiet : Answers wj) where
  module _ (v : Visit) (s : Server S) (q : Quiet Open s) (h : AllGoOn v.reads) where
    visit_upgraded :
        (address : ℕ)
        → authorized s.config v.request ≡ true
        → v.fresh.upgraded ≡ some address
        → (r : Served) × (s' : Server S) × (visit storage (environs wj n) v s ≡ done r s')
          × Quiet Open s'
    visit_upgraded address allowed upgraded =
        let c : Client = record { address = address; id = v.fresh.own_id } in
        let (s', returns, hub, (in_order, gone, alone)) =
          connection_served Open storage total wj n quiet v.code v.text [] v.request v.fresh address
            v.reads s q.in_order h allowed (q.no_client _) upgraded in
        (
          _,
          s',
          returns,
          record {
            in_order = in_order;
            no_client = λ x. hub x ∙ ground (arith, q.no_client x);
            no_subscriber = λ d x. elim (Bool-cases (c == d)) [
              | inl same ↦
                  subst (λ e. subscribed e (view s'.world.tm x) ≡ false) ((==_iff c d).0 same)
                    (gone x)
              | inr other ↦ alone d x other ∙ q.no_subscriber d x
            ];
          },
        )

    -- Refused, not upgraded, or served to its end.
    visit_lem :
        (r : Served) × (s' : Server S) × (visit storage (environs wj n) v s ≡ done r s')
        × Quiet Open s'
    unfolding handle_web_socket
    visit_lem = elim (Bool-cases (authorized s.config v.request)) [
      | inr refused ↦ (unauthorized, s, rw refused, q)
      | inl allowed ↦ elim (Option-cases v.fresh.upgraded) [
        | inl failed ↦ (
          not_upgraded,
          s,
          ground (arith, allowed, q.no_client (claimed_id v.request v.fresh), failed),
          q,
        )
        | inr (address, upgraded) ↦ visit_upgraded address allowed upgraded
      ]
    ]

  -- One connection after another, from a server to which nobody is connected.
  pub visits_served :
      (vs : List Visit) (s : Server S)
      → Quiet Open s
      → Orderly vs
      → (s' : Server S) × (visit_each storage (environs wj n) vs s ≡ done tt s') × Quiet Open s'
  visits_served [] s q h = (s, refl, q)
  visits_served (v ∷ vs) s q h =
      let (r, s1, e, q1) = visit_lem v s q h.0 in
      let (s2, f, q2) = visits_served vs s1 q1 h.1 in
      (
        s2,
        bind_done (visit storage (environs wj n) v) (λ _. visit_each storage (environs wj n) vs) s
              s1 r e
            ∙ f,
        q2,
      )
