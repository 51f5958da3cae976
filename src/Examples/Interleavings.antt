-- ===== src/Examples/Interleavings.antt =====
-- Calls of the topic manager whose steps are mixed, checks of flat messages, and clients that fail.
use data_loom.Common.{
  ℕ, suc, String, ◌≡◌, refl, true, false, none, some, List, [], ◌∷◌, ◌++◌, arith, done, panic, ok,
  string_eq,
}
use data_loom.Common.GoMap
use data_loom.Common.GoMap.{GoMap, is_some}
use data_loom.Schema.{Fields, field, end, num, lookup}
use data_loom.Schema.Keys.{WellFormed, SameKeys}
use data_loom.Logging.{unlocked}
use data_loom.Network.{Client, client_eq}
use data_loom.Storage.NullStorage.{NullStorage}
use data_loom.Topic
use data_loom.TopicManager.{TopicManager, new_topic_manager}
use data_loom.TopicManager.Methods
use data_loom.TopicManager.Valid.{IsValid, view}
use data_loom.TopicManager.Subscriptions.{subscribed}
use data_loom.TopicManager.Flat.{Flat, is_schema_match-Flat}
use data_loom.TopicManager.Interleaving.{
  Call, subscribe, register_topic, Pending, adding, assigning, read_and_write, two_writes,
  begin_among, act_among, begin, act, System, begins, Reach, start, later,
}
use data_loom.TopicManager.Interleaving.Safety.{ReturnsOrMeets, interleaved_calls_return}
use data_loom.TopicManager.Interleaving.Races.{registration_race}
use data_loom.Server.{Server, new_web_socket_server}
use data_loom.Server.Cleanup.{listen_for_client_failures, client_cleanup_crew}
use data_loom.Server.Failing.{ticks, queue_left, failures_never_counted}
use data_loom.Examples.{alice, bob, carol, reading, short_reading}
use data_loom.Examples.Topics.{weather, reading-WellFormed}
use data_loom.Examples.Managers.{manager, manager-IsValid}
use data_loom.Examples.Servers.{server}

-- Two registrations of one name are under way.
abbrev empty_manager : TopicManager NullStorage
empty_manager = record {
  mu = unlocked;
  topics = [];
  heap = [];
  db = record {};
  failed_clients = [];
}

abbrev racing : System NullStorage
racing = record {
  tm = empty_manager;
  pending = adding "tides" reading ∷ adding "tides" short_reading ∷ [];
}

racing-Reach : Reach racing
unfolding begin new_topic_manager GoMap.get
racing-Reach =
    later _ _
      (later _ _ (start (record {})) (
        begins (register_topic "tides" reading) (some (adding "tides" reading)) empty_manager refl))
      (begins (register_topic "tides" short_reading) (some (adding "tides" short_reading))
        empty_manager refl)

interleaved_calls_return_example :
    IsValid empty_manager
    × ((call : Call)
        → ReturnsOrMeets racing.pending read_and_write
            (begin_among racing.pending call empty_manager)
            empty_manager)
    × ((before after : List Pending) (p : Pending)
        → racing.pending ≡ before ++ p ∷ after
        → ReturnsOrMeets
            (before ++ after)
            two_writes
            (act_among (before ++ after) p empty_manager)
            empty_manager)
interleaved_calls_return_example = interleaved_calls_return racing racing-Reach

tides_missing : view manager "tides" ≡ none
unfolding view GoMap.get
tides_missing = refl

registration_race_example :
    (tm1 tm2 tm3 : TopicManager NullStorage) × (begin (register_topic "tides" reading) manager
      ≡ done (some (adding "tides" reading)) manager)
    × (begin (register_topic "tides" short_reading) manager
        ≡ done (some (adding "tides" short_reading)) manager)
    × (act (adding "tides" reading) manager ≡ done (some (assigning "tides" reading)) manager)
    × (act (assigning "tides" reading) manager ≡ done none tm1)
    × (Methods.subscribe "tides" carol tm1 ≡ done (ok tt) tm2)
    × (subscribed carol (view tm2 "tides") ≡ true)
    × (act (adding "tides" short_reading) tm2 ≡ done (some (assigning "tides" short_reading)) tm2)
    × (act (assigning "tides" short_reading) tm2 ≡ done none tm3)
    × (view tm3 "tides" ≡ some (Topic.new_topic "tides" short_reading))
    × (subscribed carol (view tm3 "tides") ≡ false)
registration_race_example =
    registration_race manager manager-IsValid "tides" tides_missing reading short_reading carol

-- {"place": 5, "degrees": 20}
abbrev flat_reading : Fields
flat_reading = field "place" (num 5) (field "degrees" (num 20) end)

flat_reading-Flat : Flat flat_reading
unfolding lookup
flat_reading-Flat k v e = ground (arith, e)

flat_reading-WellFormed : WellFormed flat_reading
unfolding lookup
flat_reading-WellFormed = (refl, tt, (refl, tt, tt))

flat_reading-SameKeys : SameKeys flat_reading reading
unfolding lookup
flat_reading-SameKeys k = ground arith

weather_latest :
    Topic.get_latest_schema weather ≡ (ok (record { version = 0; schema = reading }), weather)
unfolding Topic.get_latest_schema GoMap.get
weather_latest = refl

weather_seen : view manager "weather" ≡ some weather
unfolding view GoMap.get
weather_seen = refl

is_schema_match-Flat_example :
    (tm' : TopicManager NullStorage) × (Methods.is_schema_match "weather" flat_reading manager
      ≡ done (ok true) tm')
    × ((x : String) → view tm' x ≡ view manager x)
is_schema_match-Flat_example =
    is_schema_match-Flat manager "weather" manager-IsValid flat_reading weather
      (record { version = 0; schema = reading }) weather_seen weather_latest flat_reading-WellFormed
      reading-WellFormed flat_reading-Flat flat_reading-SameKeys

-- A new server, whose manager has two failed clients queued.
abbrev failing : Server NullStorage
failing =
    new_web_socket_server server.hub
      (record server.world { tm = record manager { failed_clients = alice ∷ bob ∷ [] } })
      server.config

nothing_made : failing.failed_clients ≡ none
unfolding new_web_socket_server
nothing_made = refl

not_locked : failing.mu ≡ unlocked
unfolding new_web_socket_server
not_locked = refl

failures_never_counted_example :
    ((c : Client) (rest : List Client) (k : ℕ)
      → failing.world.tm.failed_clients ≡ c ∷ rest
      → listen_for_client_failures (suc k) failing
        ≡ panic "assignment to entry in nil map" (queue_left rest failing))
    × ((k : ℕ) → client_cleanup_crew (ticks k) failing ≡ done tt failing)
failures_never_counted_example = failures_never_counted failing not_locked nothing_made
