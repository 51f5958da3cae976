-- ===== src/Main/Lifetime.antt =====
-- server/cmd/data-loom-server/main.go from the settings to main's return, with one connection after
-- another between them.
use data_loom.Common.{
  ℕ, String, ◌≡◌, ◌≢◌, refl, ap, sym, subst, ◌∙◌, Option, none, List, arith, Go, Outcome, done,
  parked, panic, Result, ok, err, pure, ◌>>◌, string_eq,
}
use data_loom.Common.GoMap
use data_loom.Config.{Config, Environment, load}
use data_loom.Network.{WriteJson}
use data_loom.Network.Hub.{new_client_hub, get_client}
use data_loom.Storage.Badger.{Badger}
use data_loom.Storage.Sqlite.{Sqlite}
use data_loom.Storage.Choice.{AnyStorage, new_storage, any_storage}
use data_loom.Storage.Opened.{AnyOpen, Returning, any_storage-Total, close_opened, new_storage-open}
use data_loom.TopicManager.{new_topic_manager}
use data_loom.TopicManager.Valid.{view, IsValid-new}
use data_loom.Server.{Server, new_web_socket_server}
use data_loom.Server.Answers.{Answers, environs}
use data_loom.Server.Visiting.{Visit, Orderly, Quiet, visit_each, visits_served}
use data_loom.Main.{returned, assemble, start, with_storage, with_settings, shut_down, main}

-- A new server over an open storage is in order, with nobody connected or subscribed.
pub assemble-Quiet :
    {S : Type 0} (Open : S → Type 0) (now : ℕ) (db : S) (config : Config)
    → Open db
    → Quiet Open (assemble now db config)
unfolding assemble new_web_socket_server new_client_hub get_client new_topic_manager view GoMap.get
assemble-Quiet Open now db config opened = record {
  in_order = record { valid = IsValid-new db; opened = opened };
  no_client = λ x. refl;
  no_subscriber = λ d x. refl;
}

module _ {B D : Type 0} (badger : Badger B) (sqlite : Sqlite D) (env : Environment) (now : ℕ) where
  stored-Quiet :
      (config : Config) (o : Outcome (Unit {0}) (Result (AnyStorage B D)))
      (s : Server (AnyStorage B D))
      → new_storage badger sqlite config ≡ o
      → with_storage badger sqlite now config o ≡ done (ok s) tt
      → config.storage_type ≢ "sqlite"
      → Quiet AnyOpen s
  stored-Quiet config (done (ok db) tt) s e f ne =
      let same : assemble now db config ≡ s = cc in
      subst (Quiet AnyOpen) same
        (assemble-Quiet AnyOpen now db config (new_storage-open badger sqlite config db e ne))
  stored-Quiet config (done (err text) u) s e f ne = cc
  stored-Quiet config (parked u) s e f ne = cc
  stored-Quiet config (panic text u) s e f ne = cc

  start-Quiet :
      (config : Config) (s : Server (AnyStorage B D))
      → load env ≡ ok config
      → start badger sqlite env now ≡ done (ok s) tt
      → config.storage_type ≢ "sqlite"
      → Quiet AnyOpen s
  unfolding start
  start-Quiet config s e f ne =
      stored-Quiet config (new_storage badger sqlite config) s refl
        (sym (ap (with_settings badger sqlite now) e) ∙ f) ne

  module _ (returning : Returning badger) (wj : WriteJson) (n : ℕ) (quiet : Answers wj) where
    abbrev pub serving : List Visit → Go (Server (AnyStorage B D)) (Option String)
    serving vs = do visit_each (any_storage badger sqlite) (environs wj n) vs; pure none

    closed_lem :
        (s : Server (AnyStorage B D))
        → Quiet AnyOpen s
        → (s' : Server (AnyStorage B D)) × (shut_down badger sqlite s ≡ done tt s')
          × (s'.hub ≡ s.hub)
          × ((x : String) → view s'.world.tm x ≡ view s.world.tm x)
    unfolding shut_down view
    closed_lem s q =
        let (r, db, e) = close_opened badger sqlite returning s.world.tm.db q.in_order.opened in
        (
          record s { world = record s.world { tm = record s.world.tm { db = db } } },
          ground (arith, e),
          refl,
          λ x. refl,
        )

    -- Where Load accepts the environment, the storage opens and is not Sqlite's, deletions and
    -- closing of Badger's database return, and responses are written without an error: main serves
    -- any sequence of connections, one after another, each authorized or not, upgraded or not, with
    -- any messages but unregisterTopic and any unreadable ones, up to the peer's close; then it
    -- returns once its context ends. After the last connection the manager is in order, the storage
    -- open, the hub empty and no topic has a subscriber, and closing the storage changes neither
    -- the hub nor the topics.
    pub main_returns :
        (config : Config) (s : Server (AnyStorage B D)) (vs : List Visit)
        → load env ≡ ok config
        → start badger sqlite env now ≡ done (ok s) tt
        → config.storage_type ≢ "sqlite"
        → Orderly vs
        → (t s' : Server (AnyStorage B D)) × (visit_each
              (any_storage badger sqlite)
              (environs wj n)
              vs
              s
            ≡ done tt t)
          × Quiet AnyOpen t
          × (main badger sqlite env now (serving vs) ≡ done (returned s') tt)
          × (s'.hub ≡ t.hub)
          × ((x : String) → view s'.world.tm x ≡ view t.world.tm x)
    unfolding main
    main_returns config s vs e f ne h =
        let (t, visits, q) =
          visits_served AnyOpen (any_storage badger sqlite)
            (any_storage-Total badger sqlite returning) wj n quiet vs s
            (start-Quiet config s e f ne) h in
        let (s', shut, hub, sees) = closed_lem t q in
        (t, s', visits, q, ground (arith, f, visits, shut), hub, sees)
