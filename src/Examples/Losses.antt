-- ===== src/Examples/Losses.antt =====
-- A published value that the writer comes to too late, and one whose write fails in time.
use data_loom.Common.{◌≡◌, refl, true, false, none, some, [], arith, done, get_elem?, string_eq}
use data_loom.Common.GoMap
use data_loom.Logging.{unlocked}
use data_loom.Network.{WebSocketMessage}
use data_loom.Runtime.{started}
use data_loom.Storage.Badger.{BadgerStorage, badger_storage}
use data_loom.TopicManager.{TopicManager}
use data_loom.TopicManager.Valid.{IsValid, view}
use data_loom.Server.{Server}
use data_loom.Server.Handlers
use data_loom.Server.Answers.{environs}
use data_loom.Common.{◌++◌, ◌∷◌, String, Option}
use data_loom.Runtime.{context_done}
use data_loom.Server.{on_runtime}
use data_loom.Server.Waiting.{forward_step, await_step}
use data_loom.Server.Reporting.{answered_channel, empty_channel, told_of, write_result_reported}
use data_loom.Server.Losing.{ended_channel, writes_next, publish_then_write_drops}
use data_loom.Examples.{alice, reading, message, leaving_sockets}
use data_loom.Examples.Topics.{weather}
use data_loom.Examples.Managers.{manager, manager-IsValid}
use data_loom.Examples.Servers.{server, leaving-Answers}
use data_loom.Examples.Storages.{Cell, badger_cell}

abbrev stored_manager : TopicManager (BadgerStorage Cell)
stored_manager = record {
  mu = unlocked;
  topics = manager.topics;
  heap = manager.heap;
  db = record { database = some none; write_queue = []; closed = false; running = true };
  failed_clients = [];
}

stored_manager-IsValid : IsValid stored_manager
stored_manager-IsValid = record {
  free = refl;
  resolves = manager-IsValid.resolves;
  distinct = manager-IsValid.distinct;
  bounded = omega arith;
}

weather_there : view stored_manager "weather" ≡ some weather
unfolding view GoMap.get
weather_there = refl

abbrev storing : Server (BadgerStorage Cell)
storing = record {
  world = record { tm = stored_manager; net = []; runtime = started 0 };
  hub = server.hub;
  config = server.config;
  failed_clients = none;
  mu = unlocked;
}

abbrev publication : WebSocketMessage
publication = message "publish" "weather" (some reading)

publish_then_write_drops_example :
    (s1 s2 : Server (BadgerStorage Cell)) × (Handlers.publish_handler
        (badger_storage badger_cell)
        (environs leaving_sockets 9)
        alice
        publication
        storing
      ≡ done tt s1)
    × (writes_next badger_cell s1 ≡ done tt s2)
    × (s2.world.tm.db ≡ stored_manager.db)
    × (get_elem? s2.world.runtime.channels 1 ≡ some (ended_channel 0 (started 0)))
publish_then_write_drops_example =
    publish_then_write_drops badger_cell leaving_sockets 9 leaving-Answers alice publication storing
      stored_manager-IsValid reading refl weather weather_there true none refl

abbrev disk_full : Option String
disk_full = some "disk full"

abbrev refused : Server (BadgerStorage Cell)
refused = record storing {
  world = record storing.world {
    runtime = record (started 0) {
      channels = answered_channel disk_full ∷ empty_channel ∷ [];
      contexts = false ∷ [];
    };
  };
}

still_going : context_done 0 refused.world.runtime ≡ false
unfolding context_done
still_going = refl

write_result_reported_example :
    (s1 s2 : Server (BadgerStorage Cell)) × (on_runtime (forward_step false 0 1) refused
      ≡ done tt s1)
    × (await_step (environs leaving_sockets 9) alice publication 1 0 s1 ≡ done tt s2)
    × (s2.world.net ≡ [] ++ told_of leaving_sockets alice publication disk_full [])
    × (s2.world.tm ≡ stored_manager)
write_result_reported_example =
    write_result_reported leaving_sockets 9 leaving-Answers alice publication 0 1 0 disk_full
      refused (λ e. omega arith) refl refl still_going
