-- ===== src/Server/Losing.antt =====
-- publishHandler (server/internal/server/handlers.go) over Badger's storage (storage/badger.go), where the
-- writer comes to the value only after the handler has returned.
use data_loom.Common.{
  ℕ, ◌≡◌, refl, ap, sym, ◌∙◌, Bool, true, false, some, [], ◌∷◌, arith, Go, done, length, get_elem?,
  set, get_elem?-append_last, get_elem?-set_self,
}
use data_loom.Schema.{Fields}
use data_loom.Network.{Client, WebSocketMessage, WriteJson}
use data_loom.Runtime.{Runtime, Channel, context_done, context_error}
use data_loom.Storage.Queue.{DbWriteRequest, writer_step}
use data_loom.Storage.Badger
use data_loom.Storage.Badger.{Badger, BadgerStorage, badger_storage}
use data_loom.Storage.RoundTrip.{fresh_channel, idle, queued, request_badger, put_queues}
use data_loom.Storage.Writing.{write_request_drops}
use data_loom.Topic.{Topic}
use data_loom.TopicManager.Publish.{on_stored}
use data_loom.TopicManager.Valid.{view, IsValid}
use data_loom.Server.{Server, on_world}
use data_loom.Server.Handlers
use data_loom.Server.Answers.{Answers, environs}
use data_loom.Server.Publishing.{launched}
use data_loom.Server.Persisting.{forwarding, publish_persists}

-- A channel that holds the error of the context, and is not closed.
abbrev pub ended_channel : ℕ → Runtime → Channel
ended_channel ctx rt = record {
  capacity = 1;
  buffer = some (context_error ctx rt) ∷ [];
  closed = false;
}

module _ {D : Type 0} (badger : Badger D) where
  -- The writer's round over one request whose context is done.
  dropped_lem :
      (rt : Runtime) (running : Bool) (d : D) (request : DbWriteRequest)
      → context_done request.write_ctx rt ≡ true
      → get_elem? rt.channels request.err_ch ≡ some fresh_channel
      → (rt' : Runtime) × (writer_step (Badger.put badger) (record (idle rt running d) {
        db = record {
          database = some d;
          write_queue = request ∷ [];
          closed = false;
          running = running;
        };
      })
          ≡ done tt (idle rt' running d))
        × (get_elem? rt'.channels request.err_ch ≡ some (ended_channel request.write_ctx rt))
  unfolding writer_step
  dropped_lem rt running d request over there =
      let (s', returns, same, at) =
        write_request_drops (Badger.put badger) request (idle rt running d) fresh_channel there refl
          (omega arith) over in
      (s'.runtime, returns ∙ ap (λ x. done tt (record { db = x; runtime = s'.runtime })) same, at)

  -- The writer, as a goroutine of the server.
  abbrev pub writes_next : Go (Server (BadgerStorage D)) (Unit {0})
  writes_next = on_world (on_stored (writer_step (Badger.put badger)))

  module _ (wj : WriteJson) (n : ℕ) (quiet : Answers wj) (c : Client) (msg : WebSocketMessage)
      (s : Server (BadgerStorage D)) (v : IsValid s.world.tm) (value : Fields)
      (parsed : msg.parsed_data ≡ some value) (t : Topic)
      (seen : view s.world.tm msg.topic ≡ some t) (running : Bool) (d : D)
      (nothing_queued : s.world.tm.db ≡ (idle s.world.runtime running d).db) where
    abbrev storing : Runtime
    storing = launched (badger_storage badger) wj n quiet c msg s value

    abbrev ctx : ℕ
    ctx = length s.world.runtime.contexts

    not_yet : context_done ctx storing ≡ false
    unfolding context_done
    not_yet = ground (arith, get_elem?-append_last s.world.runtime.contexts false)

    abbrev request : DbWriteRequest
    request =
        request_badger storing running ctx ctx msg.topic value s.world.runtime.clock not_yet d d
          badger

    stored :
        Badger.async_put badger ctx msg.topic value s.world.runtime.clock
          (record { db = s.world.tm.db; runtime = storing })
        ≡ done (length storing.channels) (queued storing running d request)
    stored =
        ap
          (λ db.
            Badger.async_put badger ctx msg.topic value s.world.runtime.clock
              (record { db = db; runtime = storing }))
          nothing_queued
        ∙ put_queues storing running ctx ctx msg.topic value s.world.runtime.clock not_yet d d
            badger

    -- A message with data for a topic that is there, at a server whose manager is in order, with an
    -- opened Badger storage with nothing queued, and where responses are written without an error:
    -- the publish handler returns, and the writer's next round, if it comes only then, drops the
    -- value: the storage is as it was before the publish, and the channel of the write has the
    -- context's error and stays open.
    pub publish_then_write_drops :
        (s1 s2 : Server (BadgerStorage D)) × (Handlers.publish_handler
            (badger_storage badger)
            (environs wj n)
            c
            msg
            s
          ≡ done tt s1)
        × (writes_next s1 ≡ done tt s2)
        × (s2.world.tm.db ≡ s.world.tm.db)
        × (get_elem? s2.world.runtime.channels (length storing.channels)
            ≡ some (ended_channel ctx storing))
    publish_then_write_drops =
        let q = queued storing running d request in
        let (s1, ws, p) =
          publish_persists (badger_storage badger) wj n quiet c msg s v value parsed t seen
            (length storing.channels) q.db q.runtime stored in
        let after : Runtime =
          record (forwarding q.runtime (length storing.channels)
            (length s.world.runtime.channels)) { contexts = set storing.contexts ctx true } in
        let over : context_done ctx after ≡ true =
          (unfold context_done in
            ground (
              arith,
              get_elem?-set_self storing.contexts ctx true false
                  (get_elem?-append_last s.world.runtime.contexts false),
            )) in
        let (rt', returns, at) =
          dropped_lem after running d request over
            (get_elem?-append_last storing.channels fresh_channel) in
        let reached : writer_step (Badger.put badger)
              (record { db = s1.world.tm.db; runtime = s1.world.runtime })
            ≡ done tt (idle rt' running d) =
          (λ i.
            writer_step (Badger.put badger)
              (record { db = p.db_after i; runtime = p.runtime_after i }))
          ∙ returns in
        (
          s1,
          record s1 {
            world = record s1.world {
              tm = record s1.world.tm { db = (idle rt' running d).db };
              runtime = rt';
            };
          },
          p.publishes,
          ground (arith, reached),
          sym nothing_queued,
          at,
        )
