-- ===== src/Server/Closing.antt =====
-- handleWebSocket of server/internal/server/server.go, where the connection is closed.
use data_loom.Common.{
  ℕ, String, ◌≡◌, refl, true, none, some, List, ◌∷◌, arith, done, ◌==◌, if◌then◌else◌, string_eq,
}
use data_loom.Common.GoMap.{get-put, get-delete}
use data_loom.Network.{Client, close_error}
use data_loom.Network.Hub.{ClientHub, add_client, remove_client, get_client}
use data_loom.Storage.{Storage}
use data_loom.TopicManager.Methods.{unsubscribe_all}
use data_loom.TopicManager.Valid.{view, IsValid}
use data_loom.TopicManager.Spec
use data_loom.TopicManager.Refinement.{Refines}
use data_loom.TopicManager.UnsubscribeAll.{unsubscribe_all_refines}
use data_loom.Server.{Server, Environs, handle_socket_error}
use data_loom.Server.Routing.{HandlerTable}
use data_loom.Server.Connection.{
  Request, Fresh, Read, broken, closed, authorized, claimed_id, handle_web_socket, read_loop,
  converse,
}

-- After a client is added and removed again its id is free, and the others are as before.
pub get_client-remove_client :
    (x : String) (c : Client) (hub : ClientHub)
    → get_client x (remove_client c (add_client c hub))
      ≡ (if c.id == x then none else get_client x hub)
unfolding get_client remove_client add_client
get_client-remove_client x c hub = rw (get-delete, get-put) (ground arith)

module _ {S : Type 0} (storage : Storage S) (env : Environs) (table : HandlerTable S) (r : Request)
    (fresh : Fresh) (code : ℕ) (text : String) (rest : List Read) (s : Server S) (address : ℕ)
    (v : IsValid s.world.tm) (allowed : authorized s.config r ≡ true)
    (unused : get_client (claimed_id r fresh) s.hub ≡ none)
    (upgraded : fresh.upgraded ≡ some address) where
  abbrev client : Client
  client = record { address = address; id = fresh.own_id }

  abbrev swept :
      Refines (unsubscribe_all client) s.world.tm (Spec.unsubscribe_all client (view s.world.tm))
  swept = unsubscribe_all_refines s.world.tm client v

  abbrev after : Server S
  after = record s {
    world = record s.world { tm = swept.after };
    hub = remove_client client (add_client client s.hub);
  }

  -- An authorized request with an id that is not in use, whose connection is upgraded and whose
  -- first read finds it closed, at a server whose manager is in order: handleWebSocket returns
  -- without a write, its client is in no topic, the client's own id is not in the hub, and every
  -- other entry of the hub is as before.
  pub closed_connection_leaves :
      (s' : Server S) × (handle_web_socket storage env table r fresh
          (broken (close_error code text) ∷ rest)
          s
        ≡ done closed s')
      × ((x : String) → view s'.world.tm x ≡ (Spec.unsubscribe_all client (view s.world.tm)).1 x)
      × ((x : String)
          → get_client x s'.hub ≡ (if fresh.own_id == x then none else get_client x s.hub))
      × (s'.world.net ≡ s.world.net)
  unfolding handle_web_socket converse read_loop handle_socket_error
  closed_connection_leaves = (
    after,
    ground (arith, allowed, unused, upgraded, swept.returns),
    swept.sees,
    λ x. get_client-remove_client x client s.hub,
    refl,
  )
