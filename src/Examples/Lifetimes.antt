-- ===== src/Examples/Lifetimes.antt =====
-- A process from its settings to its end, with two connections.
use data_loom.Common.{
  String, ◌≡◌, ◌≢◌, true, false, ==_iff, refl, none, some, List, [], ◌∷◌, done, ok, string_eq,
}
use data_loom.Storage.Choice.{AnyStorage, of_badger, any_storage}
use data_loom.Storage.Opened.{AnyOpen, Returning}
use data_loom.TopicManager.Valid.{view}
use data_loom.Server.{Server}
use data_loom.Server.Answers.{environs}
use data_loom.Server.Visiting.{Visit, Quiet, visit_each}
use data_loom.Main.{returned, assemble, start, main}
use data_loom.Main.Lifetime.{serving, main_returns}
use data_loom.Examples.{leaving_sockets}
use data_loom.Examples.Servers.{leaving-Answers}
use data_loom.Examples.Connections.{request}
use data_loom.Examples.Conversations.{reads, reads-AllGoOn}
use data_loom.Examples.Storages.{Cell, badger_cell, sqlite_cell, environment, settings, loaded}

badger_cell-Returning : Returning badger_cell
badger_cell-Returning = record {
  deletes = λ key d. (ok tt, none, refl);
  closes = λ d. (ok tt, d, refl);
}

-- One that is served, and one whose upgrade fails.
abbrev visits : List Visit
visits =
    record {
      request = request;
      fresh = record { fallback_id = "f1"; own_id = "f2"; upgraded = some 7 };
      reads = reads;
      code = 1000;
      text = "bye";
    }
    ∷ record {
      request = request;
      fresh = record { fallback_id = "f3"; own_id = "f4"; upgraded = none };
      reads = [];
      code = 1000;
      text = "bye";
    }
    ∷ []

abbrev begun : Server (AnyStorage Cell Cell)
begun =
    assemble 5
      (of_badger
        (record { database = some none; write_queue = []; closed = false; running = true }))
      settings

begun_lem : start badger_cell sqlite_cell environment 5 ≡ done (ok begun) tt
unfolding start
begun_lem = refl

not_sqlite : settings.storage_type ≢ "sqlite"
not_sqlite e = absurd (cc ((==_iff {K = String} "badger" "sqlite").1 e))

main_returns_example :
    (t s' : Server (AnyStorage Cell Cell)) × (visit_each
        (any_storage badger_cell sqlite_cell)
        (environs leaving_sockets 9)
        visits
        begun
      ≡ done tt t)
    × Quiet AnyOpen t
    × (main badger_cell sqlite_cell environment 5 (
          serving badger_cell sqlite_cell environment 5 badger_cell-Returning leaving_sockets 9
            leaving-Answers visits)
        ≡ done (returned s') tt)
    × (s'.hub ≡ t.hub)
    × ((x : String) → view s'.world.tm x ≡ view t.world.tm x)
main_returns_example =
    main_returns badger_cell sqlite_cell environment 5 badger_cell-Returning leaving_sockets 9
      leaving-Answers settings begun visits loaded begun_lem not_sqlite (reads-AllGoOn, (tt, tt))
