-- ===== src/Examples/Connections.antt =====
-- A connection that ends, and a cleanup.
use data_loom.Common.{ℕ, ◌≡◌, refl, true, none, some, [], ◌∷◌, done, string_eq}
use data_loom.Common.GoMap
use data_loom.Common.GoMap.{GoMap}
use data_loom.Network.{Client, client_eq}
use data_loom.Network.Hub.{get_client}
use data_loom.Storage.NullStorage.{NullStorage}
use data_loom.Server.{Server}
use data_loom.Network.{WebSocketMessage}
use data_loom.Common.{List, ◌≤◌, ◌++◌, length, get_elem?, true, false}
use data_loom.Network.{Write, written}
use data_loom.Runtime.{started, context_done}
use data_loom.Server.Waiting.{ready, await_step}
use data_loom.Server.Awaiting.{storage_report, await_step_ends}
use data_loom.Server.Answers.{environs}
use data_loom.Server.Connection.{Request, Fresh, authorized, claimed_id}
use data_loom.Server.Cleanup.{entries, cleanup_failed_clients}
use data_loom.Server.Sweeping.{Removed, kept_count, cleanup_failed_clients_counts}
use data_loom.Examples.{alice, bob, leaving_sockets, message, short_reading}
use data_loom.Examples.Managers.{manager, manager-IsValid}
use data_loom.Examples.Servers.{server, leaving-Answers}

abbrev pub request : Request
request = record { authorization = ""; client_id = "carol" }

abbrev pub fresh : Fresh
fresh = record { fallback_id = "f1"; own_id = "f2"; upgraded = some 7 }

abbrev pub visitor : Client
visitor = record { address = 7; id = "f2" }

pub allowed : authorized server.config request ≡ true
unfolding authorized
allowed = refl

pub unclaimed : get_client (claimed_id request fresh) server.hub ≡ none
unfolding claimed_id get_client GoMap.get
unclaimed = refl

-- Alice has failed too often.
abbrev counts : GoMap Client ℕ
counts = (alice, 4) ∷ (bob, 3) ∷ []

abbrev failing : Server NullStorage
failing = record server { failed_clients = some counts }

counts-Distinct : GoMap.Distinct counts
unfolding GoMap.get
counts-Distinct = (refl, (refl, tt))

cleanup_failed_clients_counts_example :
    (s' : Server NullStorage) × (cleanup_failed_clients failing ≡ done tt s')
    × Removed (alice ∷ []) failing s'
    × ((c : Client) → GoMap.get c (entries s'.failed_clients) ≡ kept_count (GoMap.get c counts))
    × ((failing.failed_clients ≡ none) → s' ≡ failing)
cleanup_failed_clients_counts_example =
    cleanup_failed_clients_counts failing manager-IsValid refl counts-Distinct

abbrev registration : WebSocketMessage
registration = message "registerTopic" "weather" (some short_reading)

-- A publish has returned, and its value is still queued.
abbrev returned : Server NullStorage
returned = record server {
  world = record server.world {
    runtime = record (started 0) {
      channels = record { capacity = 1; buffer = []; closed = false } ∷ [];
      contexts = true ∷ [];
    };
  };
}

context_over : context_done 0 returned.world.runtime ≡ true
unfolding context_done
context_over = refl

await_step_ends_example :
    (s' : Server NullStorage) × (ws : List Write) × (await_step
        (environs leaving_sockets 9)
        alice
        registration
        0
        0
        returned
      ≡ done tt s')
    × (s'.world.net ≡ [] ++ ws)
    × (length ws ≤ 1)
    × ((ready (get_elem? returned.world.runtime.channels 0) ≡ none)
        → ws
          ≡ written leaving_sockets alice (storage_report registration "timeout when persisting") []
            ∷ [])
    × (s'.world.tm ≡ manager)
await_step_ends_example =
    await_step_ends leaving_sockets 9 leaving-Answers alice registration 0 0 returned context_over
