-- ===== src/Storage/Writing.antt =====
-- What the writer of server/internal/storage/badger.go and sqlite.go does with one request.
use data_loom.Common.{
  ℕ, ◌<◌, String, ◌≡◌, refl, true, false, Option, some, [], ◌∷◌, ◌++◌, arith, Go, done, Result,
  length, get_elem?, set, get_elem?-set_self, ltb,
}
use data_loom.Runtime.{Runtime, Channel, send, close, context_done, context_error}
use data_loom.Storage.{Stored}
use data_loom.Storage.Queue.{DbWriteRequest, Queued, error_of, write_request}

abbrev pub with_channel : ℕ → Channel → Runtime → Runtime
with_channel c ch rt = record rt { channels = set rt.channels c ch }

abbrev pub sent : Channel → Option String → Channel
sent ch e = record ch { buffer = ch.buffer ++ e ∷ [] }

abbrev pub ended : Channel → Channel
ended ch = record ch { closed = true }

pub send_lem :
    (c : ℕ) (e : Option String) (rt : Runtime) (ch : Channel)
    → get_elem? rt.channels c ≡ some ch
    → ch.closed ≡ false
    → length ch.buffer < ch.capacity
    → send c e rt ≡ done tt (with_channel c (sent ch e) rt)
unfolding send
send_lem c e rt ch there alive room =
    let fits : ltb (length ch.buffer) ch.capacity ≡ true = ground arith in
    ground (arith, there, alive, fits)

pub close_lem :
    (c : ℕ) (rt : Runtime) (ch : Channel)
    → get_elem? rt.channels c ≡ some ch
    → ch.closed ≡ false
    → close c rt ≡ done tt (with_channel c (ended ch) rt)
unfolding close
close_lem c rt ch there alive = ground (arith, there, alive)

module _ {D : Type 0} (put : DbWriteRequest → Go D (Result (Unit {0}))) (request : DbWriteRequest)
    (s : Stored (Queued D)) (ch : Channel)
    (there : get_elem? s.runtime.channels request.err_ch ≡ some ch) (alive : ch.closed ≡ false)
    (room : length ch.buffer < ch.capacity) where
  -- For a queued request whose context is not done and whose channel is open and has room, where
  -- the put returns, the writer returns with the put's database, and the channel has the put's
  -- error, or nil, and is closed.
  pub write_request_serves :
      (r : Result (Unit {0})) (db : D)
      → context_done request.write_ctx s.runtime ≡ false
      → put request s.db.database ≡ done r db
      → (s' : Stored (Queued D)) × (write_request put request s ≡ done tt s')
        × (s'.db ≡ record s.db { database = db })
        × (get_elem? s'.runtime.channels request.err_ch ≡ some (ended (sent ch (error_of r))))
  unfolding write_request
  write_request_serves r db live e =
      let rt1 = with_channel request.err_ch (sent ch (error_of r)) s.runtime in
      let rt2 = with_channel request.err_ch (ended (sent ch (error_of r))) rt1 in
      let at1 : get_elem? rt1.channels request.err_ch ≡ some (sent ch (error_of r)) =
        get_elem?-set_self s.runtime.channels request.err_ch (sent ch (error_of r)) ch there in
      (
        record s { db = record s.db { database = db }; runtime = rt2 },
        ground (
          arith,
          live,
          e,
          send_lem request.err_ch (error_of r) s.runtime ch there alive room,
          close_lem request.err_ch rt1 (sent ch (error_of r)) at1 alive,
        ),
        refl,
        get_elem?-set_self rt1.channels request.err_ch (ended (sent ch (error_of r)))
            (sent ch (error_of r)) at1,
      )

  -- For a queued request whose context is done and whose channel is open and has room, the writer
  -- returns without a put: the storage is as before, and the channel has the context's error and
  -- stays open.
  pub write_request_drops :
      context_done request.write_ctx s.runtime ≡ true
      → (s' : Stored (Queued D)) × (write_request put request s ≡ done tt s')
        × (s'.db ≡ s.db)
        × (get_elem? s'.runtime.channels request.err_ch
            ≡ some (sent ch (some (context_error request.write_ctx s.runtime))))
  unfolding write_request
  write_request_drops over = (
    record s {
      runtime =
          with_channel request.err_ch (sent ch (some (context_error request.write_ctx s.runtime)))
            s.runtime;
    },
    ground (
      arith,
      over,
      send_lem request.err_ch (some (context_error request.write_ctx s.runtime)) s.runtime ch there
          alive room,
    ),
    refl,
    get_elem?-set_self s.runtime.channels request.err_ch
        (sent ch (some (context_error request.write_ctx s.runtime))) ch there,
  )
