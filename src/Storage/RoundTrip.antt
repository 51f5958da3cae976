-- ===== src/Storage/RoundTrip.antt =====
-- A value that is put, written by the writer and read again: server/internal/storage/badger.go and
-- sqlite.go.
use data_loom.Common.{
  ℕ, String, ◌≡◌, refl, ap, ◌∙◌, Bool, true, false, Option, none, some, [], ◌∷◌, ◌++◌, arith, Go,
  done, Result, ok, length, get_elem?, get_elem?-append_last, pure, ◌>>=◌, ◌>>◌,
}
use data_loom.Schema.{Fields, obj}
use data_loom.Network.{encoded, unmarshal}
use data_loom.Runtime.{Runtime, Channel, make_channel, context_done}
use data_loom.Storage.{Stored, on_db}
use data_loom.Storage.Queue.{DbWriteRequest, Queued, writer_step, enqueue, has_room}
use data_loom.Storage.Badger
use data_loom.Storage.Badger.{Badger, BadgerStorage, found}
use data_loom.Storage.Writing.{write_request_serves}

abbrev pub fresh_channel : Channel
fresh_channel = record { capacity = 1; buffer = []; closed = false }

-- The channel of a write that succeeded: a nil error, closed.
abbrev pub acknowledged : Channel
acknowledged = record { capacity = 1; buffer = none ∷ []; closed = true }

module _ {D : Type 0} (rt : Runtime) (running : Bool) where
  -- An opened storage with nothing queued.
  abbrev pub idle : D → Stored (Queued (Option D))
  idle d = record {
    db = record { database = some d; write_queue = []; closed = false; running = running };
    runtime = rt;
  }

  -- The same with one request and its channel.
  abbrev pub queued : D → DbWriteRequest → Stored (Queued (Option D))
  queued d request = record {
    db = record {
      database = some d;
      write_queue = request ∷ [];
      closed = false;
      running = running;
    };
    runtime = record rt { channels = rt.channels ++ fresh_channel ∷ [] };
  }

  -- The writer's round over the one request.
  written_lem :
      (put : DbWriteRequest → Go (Option D) (Result (Unit {0}))) (request : DbWriteRequest)
      (d d' : D)
      → request.err_ch ≡ length rt.channels
      → context_done request.write_ctx rt ≡ false
      → put request (some d) ≡ done (ok tt) (some d')
      → (rt' : Runtime) × (writer_step put (queued d request)
          ≡ done tt (record (idle d') { runtime = rt' }))
        × (get_elem? rt'.channels request.err_ch ≡ some acknowledged)
  unfolding writer_step context_done
  written_lem put request d d' e live f =
      let s = record (queued d request) {
        db = record { database = some d; write_queue = []; closed = false; running = running };
      } in
      let there : get_elem? s.runtime.channels request.err_ch ≡ some fresh_channel =
        ap (get_elem? s.runtime.channels) e ∙ get_elem?-append_last rt.channels fresh_channel in
      let (s', returns, same, at) =
        write_request_serves put request s fresh_channel there refl (omega arith) (ok tt) (some d')
          live f in
      (s'.runtime, returns ∙ ap (λ x. done tt (record { db = x; runtime = s'.runtime })) same, at)

module _ {D : Type 0} (rt : Runtime) (running : Bool) (ctx read_ctx : ℕ) (key : String)
    (value : Fields) (now : ℕ) (live : context_done ctx rt ≡ false) (d d' : D) where
  -- A put, the writer's round, and a read.
  module _ (badger : Badger D) where
    abbrev pub put_then_get_badger : Go (Stored (BadgerStorage D)) (ℕ × Result (Option Fields))
    put_then_get_badger = do
      ch ← Badger.async_put badger ctx key value now
      writer_step (Badger.put badger)
      got ← on_db (Badger.get badger read_ctx key)
      pure (ch, got)

    abbrev pub request_badger : DbWriteRequest
    request_badger = record {
      key = key;
      value = value;
      err_ch = length rt.channels;
      write_ctx = ctx;
      timestamp = 0;
    }

    pub put_queues :
        Badger.async_put badger ctx key value now (idle rt running d)
        ≡ done (length rt.channels) (queued rt running d request_badger)
    unfolding Badger.async_put make_channel has_room enqueue context_done
    put_queues = ground (arith, live)

    -- With an opened Badger storage with nothing queued, a write context that is not done, and a
    -- database that takes the value's JSON under the key and then has it there: AsyncPut, one round
    -- of the writer and Get return the value, and the channel that AsyncPut returned has a nil
    -- error and is closed.
    pub get_badger-async_put_badger :
        badger.set_key key (encoded (obj value)) d ≡ done (ok tt) d'
        → badger.read_key key d' ≡ found (encoded (obj value))
        → (rt' : Runtime) × (put_then_get_badger (idle rt running d)
            ≡ done
                (length rt.channels, ok (some value))
                (record (idle rt running d') { runtime = rt' }))
          × (get_elem? rt'.channels (length rt.channels) ≡ some acknowledged)
    unfolding Badger.put Badger.get unmarshal
    get_badger-async_put_badger e f =
        let wrote : Badger.put badger request_badger (some d) ≡ done (ok tt) (some d') =
          ground (arith, e) in
        let (rt', returns, at) =
          written_lem rt running (Badger.put badger) request_badger d d' refl live wrote in
        (rt', ground (arith, put_queues, returns, f), at)
