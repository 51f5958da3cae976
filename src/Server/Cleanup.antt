-- ===== src/Server/Cleanup.antt =====
-- Clients that fail to communicate: ListenForClientFailuresFromTopicManager, StartClientCleanupCrew and
-- cleanupFailedClients of server/internal/server/server.go.
use data_loom.Common.{
  ℕ, zero, suc, Option, none, some, List, [], ◌∷◌, Go, parked, if◌then◌else◌, pure, gets, modify,
  ◌>>=◌, ◌>>◌, string_eq,
}
use data_loom.Common.GoMap
use data_loom.Common.GoMap.{GoMap}
use data_loom.Logging.{lock, unlock}
use data_loom.Network.{Client, client_eq}
use data_loom.Network.Hub.{remove_client}
use data_loom.Topic.{int_lt}
use data_loom.TopicManager.{next_failed_client}
use data_loom.TopicManager.Methods.{unsubscribe_all}
use data_loom.Server.{
  Server, failed_message_threshold, on_manager, on_mu, deferring, mark_client_failed,
}

-- The entries of a map that may be nil.
abbrev pub entries : Option (GoMap Client ℕ) → List (Client × ℕ)
entries none = []
entries (some m) = m

abbrev pub map_counts :
    (GoMap Client ℕ → GoMap Client ℕ) → Option (GoMap Client ℕ) → Option (GoMap Client ℕ)
map_counts f none = none
map_counts f (some m) = some (f m)

unfoldable pub forget_each : List Client → Option (GoMap Client ℕ) → Option (GoMap Client ℕ)
forget_each [] counts = counts
forget_each (c ∷ rest) counts = forget_each rest (map_counts (GoMap.delete c) counts)

-- What wakes the goroutine of StartClientCleanupCrew: its ticker, or the end of its context.
pub data Wake : Type 0 where
  tick over : Wake

module _ {S : Type 0} where
  -- One round of the listener's loop. The channel is never closed, so that the loop never ends.
  unfoldable pub listen_once : Go (Server S) (Unit {0})
  unfolding mark_client_failed
  listen_once = do
    received ← on_manager next_failed_client
    if received.1 then mark_client_failed received.0 else pure tt

  -- The body of the loop over the failed clients.
  unfoldable pub remove_failed : Client → Go (Server S) (Unit {0})
  remove_failed c = do
    on_manager (unsubscribe_all c)
    modify (λ s. record s { hub = remove_client c s.hub })

  -- The loop, with the clients that it removes.
  unfoldable pub remove_each : List (Client × ℕ) → Go (Server S) (List Client)
  unfolding remove_failed
  remove_each [] = pure []
  remove_each ((c, fails) ∷ rest) = do
    if int_lt failed_message_threshold fails then remove_failed c else pure tt
    removals ← remove_each rest
    pure (if int_lt failed_message_threshold fails then c ∷ removals else removals)

  unfoldable pub cleanup_failed_clients : Go (Server S) (Unit {0})
  unfolding lock unlock remove_each forget_each
  cleanup_failed_clients = do
    on_mu lock
    deferring (on_mu unlock) (do
      counts ← gets (λ s. s.failed_clients)
      removals ← remove_each (entries counts)
      modify (λ s. record s { failed_clients = forget_each removals s.failed_clients }))

  -- So many rounds of the listener's loop.
  unfoldable pub listen_for_client_failures : ℕ → Go (Server S) (Unit {0})
  unfolding listen_once
  listen_for_client_failures zero = pure tt
  listen_for_client_failures (suc rounds) = do listen_once; listen_for_client_failures rounds

  -- The loop of the cleanup's goroutine, which waits when nothing more wakes it.
  unfoldable pub client_cleanup_crew : List Wake → Go (Server S) (Unit {0})
  unfolding cleanup_failed_clients
  client_cleanup_crew [] = λ s. parked s
  client_cleanup_crew (tick ∷ rest) = do cleanup_failed_clients; client_cleanup_crew rest
  client_cleanup_crew (over ∷ rest) = pure tt
