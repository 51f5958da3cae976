-- ===== src/Examples/Servers.antt =====
-- A server with the manager of Examples/Managers, and what its handlers do.
use data_loom.Common.{
  String, ◌≡◌, refl, Option, none, some, [], ◌∷◌, ◌++◌, map, done, panic, string_eq,
}
use data_loom.Common.{List, true, false}
use data_loom.Common.GoMap
use data_loom.Logging.{unlocked}
use data_loom.Schema.{Fields}
use data_loom.Network.{Write, WebSocketMessage, response, new_response, nil}
use data_loom.Runtime.{Runtime, make_channel, send, close, started, await}
use data_loom.Storage.NullStorage.{NullStorage, null_storage}
use data_loom.TopicManager.Valid.{IsValid, view}
use data_loom.TopicManager.Spec
use data_loom.Server.{Server, send_to_client}
use data_loom.Server.Handlers
use data_loom.Server.Routing.{route_message, handlers}
use data_loom.Server.Refusals.{updating, Refused, route_message_blank}
use data_loom.Common.Text.{trim_space, is_empty}
use data_loom.Server.Handlers.{unparsed}
use data_loom.Server.Sending.{nil_map, send_to_closed_panics}
use data_loom.Server.Answers.{Answers, environs}
use data_loom.Server.Publishing.{publish_to_missing, launched}
use data_loom.Server.Persisting.{Persisted, forwarding, publish_persists}
use data_loom.Storage.NullStorage
use data_loom.Examples.Topics.{weather}
use data_loom.Examples.{alice, reading, short_reading, message, closed_sockets, leaving_sockets}
use data_loom.Examples.Managers.{manager, manager-IsValid}

abbrev pub server : Server NullStorage
server = record {
  world = record { tm = manager; net = []; runtime = started 0 };
  hub = record { clients = ("alice", alice) ∷ [] };
  config = record {
    api_key = "";
    storage_type = "";
    storage_path = "./tmp/data";
    port_number = 8080;
  };
  failed_clients = none;
  mu = unlocked;
}

pub leaving-Answers : Answers leaving_sockets
leaving-Answers net c r = refl

abbrev about : String → Option Fields → WebSocketMessage
about topic value = message "any" topic value

publish_to_missing_example :
    (s' : Server NullStorage) × (Handlers.publish_handler null_storage
        (environs leaving_sockets 9)
        alice
        (about "tides" (some reading))
        server
      ≡ done tt s')
    × (map (λ w. w.message) s'.world.net
        ≡ map (λ w. w.message) server.world.net
          ++ response (
              new_response
                (about "tides" (some reading))
                400
                "could not get topic by name: tides"
                nil)
            ∷ response (
                new_response
                  (about "tides" (some reading))
                  500
                  "publish failed. Topic doesn't exist. Topic: tides"
                  nil)
            ∷ [])
    × (s'.world.runtime.goroutines ≡ [] ++ await alice (about "tides" (some reading)) 0 0 ∷ [])
    × ((x : String) → view s'.world.tm x ≡ view manager x)
    × (s'.world.tm.db ≡ record {})
    × IsValid s'.world.tm
    × (s'.hub ≡ server.hub)
publish_to_missing_example =
    publish_to_missing null_storage leaving_sockets 9 leaving-Answers alice
      (about "tides" (some reading)) server manager-IsValid reading refl
      (unfold view GoMap.get in refl)

send_to_closed_panics_example :
    (s' : Server NullStorage) × (send_to_client closed_sockets 10 alice
        (response (new_response (about "weather" none) 200 "" nil))
        server
      ≡ panic nil_map s')
    × ((x : String) → view s'.world.tm x ≡ (Spec.unsubscribe_all alice (view manager)).1 x)
    × IsValid s'.world.tm
    × (s'.mu ≡ unlocked)
    × (s'.hub ≡ server.hub)
send_to_closed_panics_example =
    send_to_closed_panics closed_sockets 9 alice
      (response (new_response (about "weather" none) 200 "" nil)) server 1000 "bye" manager-IsValid
      refl refl refl

-- The schema does not match: the message is published all the same.
abbrev mismatched : WebSocketMessage
mismatched = about "weather" (some short_reading)

abbrev stored_runtime : Runtime
stored_runtime = record (started 0) {
  channels =
      record { capacity = 1; buffer = []; closed = false }
      ∷ record { capacity = 1; buffer = none ∷ []; closed = true }
      ∷ [];
  contexts = false ∷ [];
  goroutines = await alice mismatched 0 0 ∷ [];
}

null_stores :
    null_storage.async_put 0 "weather" short_reading 0 (record {
      db = record {};
      runtime =
          launched null_storage leaving_sockets 9 leaving-Answers alice mismatched server
            short_reading;
    })
    ≡ done 1 (record { db = record {}; runtime = stored_runtime })
unfolding NullStorage.async_put make_channel send close
null_stores = refl

pub weather_found : view manager "weather" ≡ some weather
unfolding view GoMap.get
weather_found = refl

publish_persists_example :
    (s' : Server NullStorage) × (ws : List Write) × Persisted null_storage leaving_sockets 9 alice
      mismatched short_reading weather
      (record {})
      (forwarding stored_runtime 1 0)
      server
      s'
      ws
publish_persists_example =
    publish_persists null_storage leaving_sockets 9 leaving-Answers alice mismatched server
      manager-IsValid short_reading refl weather weather_found 1 (record {}) stored_runtime
      null_stores

abbrev blank_message : WebSocketMessage
blank_message = message "updateSchema" " " none

blank_topic : is_empty (trim_space " ") ≡ true
unfolding trim_space
blank_topic = refl

route_message_blank_example :
    Refused null_storage leaving_sockets 9 leaving-Answers
      (route_message null_storage
        (environs leaving_sockets 9)
        (handlers null_storage (environs leaving_sockets 9)))
      alice
      blank_message
      server
route_message_blank_example =
    route_message_blank null_storage leaving_sockets 9 leaving-Answers updating alice blank_message
      server refl blank_topic
