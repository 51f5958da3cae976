-- ===== src/Lib.antt =====
-- The verification library of Data Loom, a publish and subscribe server over WebSocket (server/).
--
-- A client connects (server.go), is added to a hub (hub.go), and sends messages. RouteMessage looks
-- the action up in a table of handlers, each wrapped in decorators (decorators.go), and the handler
-- (handlers.go) calls the topic manager (topic_manager.go). The manager keeps topics (topic.go): their
-- subscribers and the versions of their schemas. A publish is checked against the latest schema,
-- handed to a storage that writes it in the background (storage/), and written to each subscriber.
-- Clients whose connection fails are unsubscribed, counted, and in the end removed from the hub.
--
-- The modules, with the code that they translate (under server/internal/):
--   Common        Go itself: maps (GoMap), how a call ends and how calls follow one another (Calls),
--                 strings.TrimSpace (Text); and the tests and list lemmas that all modules share
--   Config        config/config.go: Load, over what os.Getenv returns; strconv.Atoi
--   Schema        decoded JSON documents; schemasMatch of topic/topic_manager.go. Keys and Paths are
--                 about its specification by paths of keys
--   Logging       logging/rwmutex.go: the lock's state, its calls
--   Network       network/dto.go, client.go and hub.go: messages, clients, writes and the hub
--   Runtime       the channels, contexts and goroutines that the handlers and storages use
--   Storage       storage/storage.go: the interface, a record that the manager takes as a parameter;
--                 NullStorage, Badger and Sqlite after their files, the Queue that the last two share,
--                 and NewStorage and the calls of the interface in Choice. Writing, Queueing and
--                 RoundTrip are about a write, Draining, Owning and Ordering about several of them,
--                 Answering and Opened about storages whose calls return
--   Topic         topic/topic.go. Versions, Subscribers and Changes are about its methods
--   TopicManager  topic/topic_manager.go: state here, the calls in Methods and in Publish. Valid says
--                 when a manager is in order, and gives its view as a map from names to topics; Spec has
--                 each operation on such a map, without the code's own methods; the other modules relate
--                 the calls to it.
--                 Interleaving takes calls apart into steps and mixes the steps of several calls
--   Server        server/server.go, with Handlers, Decorators, Routing, Connection and Cleanup after
--                 the parts of server.go, handlers.go and decorators.go, and Waiting for the goroutines
--                 that a publish leaves running; the other modules are about what sending, the
--                 handlers, the table of handlers (Serving), a publish and the writer after it (Losing),
--                 whole connections (Conversing, Visiting), connections side by side (Mixing) and the
--                 cleanup (Sweeping, Failing) do
--   Main          main of server/cmd/data-loom-server/main.go; Lifetime has it from its start to its end
--   Examples      small topics, managers and servers on which the theorems are used
--
-- A call is a function from the state to an outcome: it is done with a value, parked on a lock or a
-- channel for as long as nobody else acts, or it panics; each with the state that it leaves. An
-- error result is a value of type Result, known by its text. Pointers to topics are positions in the
-- manager's heap, on which a topic never moves. A Go map is a list of pairs, and the order of a range
-- over it is the order of the list; the theorems hold for all lists without double keys, so for all
-- orders. An int is its 64-bit pattern, and its sum wraps.
--
-- What the packages do is a parameter: Conn.WriteJSON is a function of all earlier writes, the
-- storage is an interface, the databases of Badger and Sqlite are records of calls, and the runtime
-- holds what time.Now() returns and which ready case each select takes. SendToClient and
-- handleWebSocketError call one another; the model gives them room on the stack as fuel, and runs out of
-- it with a panic. Where a write never fails in decoding, as WriteJSON does not, the second call is
-- never made, so that any fuel but none serves. All other loops are structural; the writer's
-- and the listener's, which need not end, are taken for a number of rounds.
--
-- Concurrent calls are sequences of steps, each of what one call does under one lock. RegisterTopic's
-- write to the map, which holds no lock, is a step that begins it and one that ends it: a lookup or
-- another write between the two is fatal, as Go's runtime makes it where it notices. In the calls that
-- are not interrupted (Methods), that write is one step. Server/Mixing has connections side by side,
-- where what one read leads to is a step; it does not cut RegisterTopic's write in two. The other
-- theorems are about calls that are not interrupted.
--
-- A context that is done has ended by cancel() or by its deadline; which of the two is part of the
-- runtime's state, and gives the text of its error.
--
-- Not modelled: logging and metrics (logging/logger.go), the HTTP server and signals, which are a
-- parameter of main, and the C# client (sdks/csharp).
pub mod Common
pub mod Config
pub mod Schema
pub mod Logging
pub mod Network
pub mod Runtime
pub mod Storage
pub mod Topic
pub mod TopicManager
pub mod Server
pub mod Main
pub mod Examples
