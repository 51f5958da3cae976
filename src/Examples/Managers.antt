-- ===== src/Examples/Managers.antt =====
-- A topic manager with one topic and no database, and what its methods do.
use data_loom.Common.{
  ℕ, String, ◌≡◌, refl, subst, true, false, none, some, List, [], ◌∷◌, arith, done, parked, ok, err,
  get_elem?, ◌==◌, ==_iff, Bool-cases, inl, inr, string_eq,
}
use data_loom.Common.GoMap
use data_loom.Logging.{unlocked}
use data_loom.Network.{WebSocketMessage, Write}
use data_loom.Runtime.{Runtime, Channel, started, forward, make_channel, send, close, spawn}
use data_loom.Storage.NullStorage
use data_loom.Storage.NullStorage.{NullStorage, null_storage}
use data_loom.TopicManager.{TopicManager}
use data_loom.TopicManager.Methods
use data_loom.TopicManager.Methods.{explain_get}
use data_loom.TopicManager.Publish.{World, send_topic, persist_value, report_errors}
use data_loom.TopicManager.Valid.{IsValid, Names, view}
use data_loom.TopicManager.Spec
use data_loom.TopicManager.Reachable.{Reached, start, later, registers, Reached-IsValid}
use data_loom.TopicManager.{new_topic_manager, find_topic}
use data_loom.Topic
use data_loom.TopicManager.Refinement.{
  Refines, subscribe_refines, unsubscribe_refines, update_schema_refines,
}
use data_loom.TopicManager.UnsubscribeAll.{unsubscribe_all_refines}
use data_loom.TopicManager.Registration.{Registers, register_topic_refines}
use data_loom.TopicManager.Removal.{Call, call, unregister_missing_parks}
use data_loom.TopicManager.Delivery.{Delivered, send_topic_delivers}
use data_loom.Examples.{alice, bob, carol, reading, short_reading, message, leaving_sockets}
use data_loom.Examples.Topics.{weather, weather-IsValid}

abbrev pub manager : TopicManager NullStorage
manager = record {
  mu = unlocked;
  topics = ("weather", 0) ∷ [];
  heap = weather ∷ [];
  db = record {};
  failed_clients = [];
}

manager-Names : (n : String) (p : ℕ) → GoMap.get n manager.topics ≡ some p → Names manager n p
unfolding GoMap.get
manager-Names n p e = elim (Bool-cases ("weather" == n)) [
  | inl same ↦
      let first : 0 ≡ p = ground arith in
      (
        weather,
        subst (λ x. get_elem? manager.heap x ≡ some weather) first refl,
        (==_iff "weather" n).0 same,
        weather-IsValid,
      )
  | inr other ↦ absurd (ground arith)
]

pub manager-IsValid : IsValid manager
manager-IsValid = record {
  free = refl;
  resolves = manager-Names;
  distinct = (unfold GoMap.get in refl, tt);
  bounded = omega arith;
}

subscribe_refines_example :
    Refines
      (Methods.subscribe "weather" carol)
      manager
      (Spec.subscribe "weather" carol (view manager))
subscribe_refines_example = subscribe_refines manager "weather" carol manager-IsValid

unsubscribe_refines_example :
    Refines
      (Methods.unsubscribe "weather" bob)
      manager
      (Spec.unsubscribe "weather" bob (view manager))
unsubscribe_refines_example = unsubscribe_refines manager "weather" bob manager-IsValid

update_schema_refines_example :
    Refines
      (Methods.update_schema "weather" short_reading)
      manager
      (Spec.update_schema "weather" short_reading (view manager))
update_schema_refines_example =
    update_schema_refines manager "weather" short_reading manager-IsValid

unsubscribe_all_refines_example :
    Refines (Methods.unsubscribe_all alice) manager (Spec.unsubscribe_all alice (view manager))
unsubscribe_all_refines_example = unsubscribe_all_refines manager alice manager-IsValid

register_topic_refines_example : Registers "tides" reading manager
register_topic_refines_example = register_topic_refines "tides" reading manager manager-IsValid

unregister_missing_parks_example :
    (text : String) × (tm' : TopicManager NullStorage) × (Methods.unregister_topic null_storage 0
        "tides" manager
      ≡ done (err text) tm')
    × ((c : Call NullStorage) → call null_storage c tm' ≡ parked tm')
unregister_missing_parks_example =
    unregister_missing_parks null_storage manager 0 "tides" manager-IsValid
      (unfold GoMap.get in refl)

-- The handler's channel is the runtime's first one.
abbrev pub handler_channel : Channel
handler_channel = record { capacity = 1; buffer = []; closed = false }

abbrev storage_channel : Channel
storage_channel = record { capacity = 1; buffer = none ∷ []; closed = true }

abbrev before : Runtime
before = record (started 0) { channels = handler_channel ∷ [] }

abbrev stored_runtime : Runtime
stored_runtime = record (started 0) { channels = handler_channel ∷ storage_channel ∷ [] }

abbrev reported_runtime : Runtime
reported_runtime = record stored_runtime { goroutines = forward 1 0 ∷ [] }

abbrev world : World NullStorage
world = record { tm = manager; net = []; runtime = before }

abbrev publication : WebSocketMessage
publication = message "publish" "weather" (some reading)

world_stored :
    persist_value null_storage leaving_sockets true 0 "weather" reading world
    ≡ done
        (some 1)
        (record world { tm = record manager { db = record {} }; runtime = stored_runtime })
unfolding persist_value NullStorage.async_put make_channel send close
world_stored = refl

world_reported : report_errors (some 1) (some 0) stored_runtime ≡ done tt reported_runtime
unfolding report_errors spawn
world_reported = refl

weather_seen : view manager "weather" ≡ some weather
unfolding view GoMap.get
weather_seen = refl

send_topic_delivers_example :
    (w' : World NullStorage) × (ws : List Write) × (send_topic null_storage leaving_sockets 0
        publication carol reading true
        (some 0)
        world
      ≡ done (ok tt) w')
    × Delivered publication reading weather (record {}) reported_runtime world w' ws
send_topic_delivers_example =
    send_topic_delivers null_storage leaving_sockets 0 publication carol reading true (some 0) world
      manager-IsValid weather weather_seen (some 1) (record {}) stored_runtime reported_runtime
      world_stored world_reported

-- A new manager, after one registration.
abbrev registered : TopicManager NullStorage
registered = record {
  mu = unlocked;
  topics = ("tides", 0) ∷ [];
  heap =
      record {
        name = "tides";
        subscribers = [];
        schemas = (0, record { version = 0; schema = reading }) ∷ [];
        latest_schema = 0;
      }
      ∷ [];
  db = record {};
  failed_clients = [];
}

tides_registered :
    Methods.register_topic "tides" reading (new_topic_manager (record {})) ≡ done (ok 0) registered
unfolding Methods.register_topic new_topic_manager Topic.new_topic GoMap.get GoMap.put find_topic
tides_registered = refl

registered-Reached : Reached null_storage registered
registered-Reached =
    later (new_topic_manager (record {})) registered (start (record {}))
      (registers (new_topic_manager (record {})) registered "tides" reading (ok 0) tides_registered)

Reached-IsValid_example : IsValid registered
Reached-IsValid_example = Reached-IsValid null_storage registered registered-Reached
