-- ===== src/Server/Failing.antt =====
-- Failed writes and the map of failed clients, which no line of server/internal/server/server.go makes:
-- the listener and the cleanup's goroutine on a server as it is.
use data_loom.Common.{
  ℕ, zero, suc, ◌≡◌, refl, ◌∙◌, none, List, [], ◌∷◌, arith, done, panic, bind_done,
}
use data_loom.Logging.{unlocked, lock, unlock}
use data_loom.Network.{Client}
use data_loom.TopicManager.{next_failed_client}
use data_loom.Server.{Server, mark_client_failed}
use data_loom.Server.Cleanup.{
  Wake, tick, over, listen_once, listen_for_client_failures, cleanup_failed_clients,
  client_cleanup_crew,
}
use data_loom.Server.Sweeping.{cleanup_idle}

-- So many ticks, and then the end of the context.
abbrev pub ticks : ℕ → List Wake
ticks zero = over ∷ []
ticks (suc k) = tick ∷ ticks k

module _ {S : Type 0} where
  -- The server without the first of its manager's queued clients.
  abbrev pub queue_left : List Client → Server S → Server S
  queue_left rest s = record s {
    world = record s.world { tm = record s.world.tm { failed_clients = rest } };
  }

  crew_idle :
      (k : ℕ) (s : Server S)
      → s.mu ≡ unlocked
      → s.failed_clients ≡ none
      → client_cleanup_crew (ticks k) s ≡ done tt s
  unfolding client_cleanup_crew
  crew_idle zero s free nil = refl
  crew_idle (suc k) s free nil =
      bind_done cleanup_failed_clients (λ _. client_cleanup_crew (ticks k)) s s tt
        (cleanup_idle s free nil)
      ∙ crew_idle k s free nil

  -- From a server whose lock is free and whose map of failed clients was never made, as in a new
  -- server: the listener panics at the first client that the manager has queued, which is taken
  -- from the queue without being counted, and releases the lock; and the cleanup's goroutine
  -- returns, after however many ticks, with nothing changed.
  pub failures_never_counted :
      (s : Server S)
      → s.mu ≡ unlocked
      → s.failed_clients ≡ none
      → ((c : Client) (rest : List Client) (k : ℕ)
          → s.world.tm.failed_clients ≡ c ∷ rest
          → listen_for_client_failures (suc k) s
            ≡ panic "assignment to entry in nil map" (queue_left rest s))
        × ((k : ℕ) → client_cleanup_crew (ticks k) s ≡ done tt s)
  unfolding listen_for_client_failures listen_once next_failed_client mark_client_failed lock unlock
  failures_never_counted s free nil =
      ((λ c rest k e. ground (arith, free, nil, e)), λ k. crew_idle k s free nil)
