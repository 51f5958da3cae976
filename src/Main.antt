-- ===== src/Main.antt =====
-- server/cmd/data-loom-server/main.go: the server that the settings lead to, and how the process ends.
-- Signals, the listening socket and net/http's shutdown are the packages': what they make of the
-- server until the context ends is a parameter.
pub mod Lifetime
use data_loom.Common.{
  ℕ, String, ◌<>◌, Option, none, some, [], Go, Outcome, done, parked, panic, Result, ok, err, zoom,
  ◌>>=◌, ◌>>◌,
}
use data_loom.Config.{Config, Environment, load}
use data_loom.Network.Hub.{new_client_hub}
use data_loom.Runtime.{started}
use data_loom.Storage.Badger.{Badger}
use data_loom.Storage.Sqlite.{Sqlite}
use data_loom.Storage.Choice.{AnyStorage, new_storage, close_storage}
use data_loom.TopicManager.{new_topic_manager}
use data_loom.Server.{Server, new_web_socket_server}

-- How the process ends: by log.Fatal, which runs no deferred call, or by main's return.
pub data Exit (S : Type 0) : Type 0 where
  fatal : String → Exit S
  fatal_at : String → Server S → Exit S
  returned : Server S → Exit S

-- The server over a storage, at the time `now`.
unfoldable pub assemble : {S : Type 0} → ℕ → S → Config → Server S
unfolding new_topic_manager new_client_hub new_web_socket_server
assemble now db config =
    new_web_socket_server new_client_hub
      (record { tm = new_topic_manager db; net = []; runtime = started now }) config

module _ {B D : Type 0} (badger : Badger B) (sqlite : Sqlite D) where
  abbrev Stores : Type 0
  Stores = AnyStorage B D

  -- NewStorage's error is fatal.
  abbrev pub with_storage :
      ℕ → Config → Outcome (Unit {0}) (Result Stores) → Outcome (Unit {0}) (Result (Server Stores))
  with_storage now config (done (ok db) u) = done (ok (assemble now db config)) u
  with_storage now config (done (err e) u) =
      done (err ("Error when setting up storage with error: " <> e)) u
  with_storage now config (parked u) = parked u
  with_storage now config (panic e u) = panic e u

  abbrev pub with_settings : ℕ → Result Config → Outcome (Unit {0}) (Result (Server Stores))
  with_settings now (ok config) = with_storage now config (new_storage badger sqlite config)
  with_settings now (err e) = done (err e) tt

  -- main, up to the server that is ready; or the text of log.Fatal.
  unfoldable pub start : Environment → ℕ → Outcome (Unit {0}) (Result (Server Stores))
  unfolding load new_storage assemble
  start env now = with_settings now (load env)

  abbrev on_storage : {A : Type 0} → Go Stores A → Go (Server Stores) A
  on_storage =
      zoom (λ s. s.world.tm.db)
        (λ db s. record s { world = record s.world { tm = record s.world.tm { db = db } } })

  -- The deferred db.Close(), whose error is dropped.
  unfoldable pub shut_down : Go (Server Stores) (Unit {0})
  unfolding close_storage
  shut_down = do on_storage (close_storage badger sqlite); λ s. done tt s

  abbrev closed_down : Outcome (Server Stores) (Unit {0}) → Outcome (Unit {0}) (Exit Stores)
  closed_down (done _ s) = done (returned s) tt
  closed_down (parked s) = parked tt
  closed_down (panic e s) = panic e tt

  -- The listener's error is fatal; else the context has ended.
  abbrev after_serving : Outcome (Server Stores) (Option String) → Outcome (Unit {0}) (Exit Stores)
  after_serving (done (some e) s) = done (fatal_at ("Server error: " <> e) s) tt
  after_serving (done none s) = closed_down (shut_down s)
  after_serving (parked s) = parked tt
  after_serving (panic e s) = panic e tt

  abbrev serve_started :
      Go (Server Stores) (Option String)
      → Outcome (Unit {0}) (Result (Server Stores))
      → Outcome (Unit {0}) (Exit Stores)
  serve_started serve (done (ok s) u) = after_serving (serve s)
  serve_started serve (done (err e) u) = done (fatal e) u
  serve_started serve (parked u) = parked u
  serve_started serve (panic e u) = panic e u

  -- main; `serve` is what net/http does with the server: it returns the listener's error, or nothing
  -- once a signal has ended the context.
  unfoldable pub main :
      Environment → ℕ → Go (Server Stores) (Option String) → Outcome (Unit {0}) (Exit Stores)
  unfolding start shut_down
  main env now serve = serve_started serve (start env now)
