-- ===== src/Storage/Badger.antt =====
-- server/internal/storage/badger.go. The database is badger's: its transactions are parameters.
use data_loom.Common.{
  ℕ, String, Bool, true, false, Option, none, some, [], Go, panic, Result, ok, err, if◌then◌else◌,
  pure, gets, modify, ◌>>=◌, ◌>>◌,
}
use data_loom.Schema.{obj, Fields}
use data_loom.Network.{RawMessage, encoded, unmarshal}
use data_loom.Runtime.{context_error, make_channel, context_done, pick}
use data_loom.Storage.{Storage, Stored, on_runtime}
use data_loom.Storage.Queue.{
  DbWriteRequest, Queued, on_database, refuse, enqueue, start_writer, close_queue, has_room,
  closed_text, full_text, nil_database, on_opened,
}

-- What a read transaction returns.
pub data Found : Type 0 where
  found : RawMessage → Found
  key_not_found : Found
  failed : String → Found

-- badger's database: a state and its calls.
pub record Badger (D : Type 0) : Type 0 where
  pub open_db : String → Result D
  pub close_db : Go D (Result (Unit {0}))
  pub set_key : String → RawMessage → Go D (Result (Unit {0}))
  pub read_key : String → D → Found
  pub delete_key : String → Go D (Result (Unit {0}))

-- `database` is nil until Open.
abbrev pub BadgerStorage : Type 0 → Type 0
BadgerStorage D = Queued (Option D)

unfoldable pub new_badger_storage : {D : Type 0} → BadgerStorage D
new_badger_storage = record { database = none; write_queue = []; closed = false; running = false }

module _ {D : Type 0} (badger : Badger D) where
  abbrev pub opened : Result D → Go (BadgerStorage D) (Result (Unit {0}))
  opened (err e) = pure (err e)
  opened (ok db) = do modify (λ s. record s { database = some db }); start_writer; pure (ok tt)

  unfoldable pub open_storage : String → Go (BadgerStorage D) (Result (Unit {0}))
  unfolding start_writer
  open_storage path = opened (badger.open_db path)

  abbrev close_database : Option D → Go (BadgerStorage D) (Result (Unit {0}))
  close_database none = pure (ok tt)
  close_database (some db) = on_database (on_opened badger.close_db)

  unfoldable pub close_storage : Go (BadgerStorage D) (Result (Unit {0}))
  unfolding close_queue
  close_storage = do close_queue; db ← gets (λ s. s.database); close_database db

  -- A decoded document is always marshalled.
  unfoldable pub put : DbWriteRequest → Go (Option D) (Result (Unit {0}))
  put request = on_opened (badger.set_key request.key (encoded (obj request.value)))

  -- The cases of the `select` that are ready: the queue has room, the context is done, or neither.
  abbrev pub choose :
      Bool → Bool → String → DbWriteRequest → Go (Stored (BadgerStorage D)) (Unit {0})
  choose true false text request = enqueue request
  choose true true text request = do
    first ← on_runtime pick
    if first then enqueue request else refuse request.err_ch text
  choose false true text request = refuse request.err_ch text
  choose false false text request = refuse request.err_ch full_text

  -- The request has no timestamp.
  unfoldable pub async_put : ℕ → String → Fields → ℕ → Go (Stored (BadgerStorage D)) ℕ
  unfolding refuse enqueue has_room
  async_put ctx key value timestamp = do
    ch ← on_runtime (make_channel 1)
    s ← gets (λ s. s)
    if s.db.closed
        then refuse ch closed_text
        else choose (has_room s.db) (context_done ctx s.runtime) (context_error ctx s.runtime)
            (record { key = key; value = value; err_ch = ch; write_ctx = ctx; timestamp = 0 })
    pure ch

  abbrev pub decode : Found → Result (Option Fields)
  decode (found raw) = unmarshal raw
  decode key_not_found = ok none
  decode (failed e) = err e

  abbrev read_opened : ℕ → String → Option D → Go (BadgerStorage D) (Result (Option Fields))
  read_opened ctx key none = panic nil_database
  read_opened ctx key (some db) = pure (decode (badger.read_key key db))

  unfoldable pub get : ℕ → String → Go (BadgerStorage D) (Result (Option Fields))
  unfolding unmarshal
  get ctx key s = read_opened ctx key s.database s

  unfoldable pub delete : ℕ → String → Go (BadgerStorage D) (Result (Unit {0}))
  delete ctx key = on_database (on_opened (badger.delete_key key))

  abbrev pub badger_storage : Storage (BadgerStorage D)
  badger_storage = record { async_put = async_put; get = get; delete = delete }
