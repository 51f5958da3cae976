-- ===== src/Storage/Sqlite.antt =====
-- server/internal/storage/sqlite.go. The database is that of database/sql and modernc.org/sqlite:
-- its calls are parameters.
use data_loom.Common.{
  ℕ, String, Bool, true, false, Option, none, some, [], Go, panic, Result, ok, err, if◌then◌else◌,
  pure, gets, ◌>>=◌, ◌>>◌,
}
use data_loom.Schema.{obj, Fields}
use data_loom.Network.{RawMessage, encoded, unmarshal}
use data_loom.Runtime.{make_channel}
use data_loom.Storage.{Storage, Stored, on_runtime}
use data_loom.Storage.Queue.{
  DbWriteRequest, Queued, on_database, refuse, enqueue, start_writer, writer_step, close_queue,
  has_room, closed_text, full_text, nil_database, on_opened,
}

-- What the query for a topic's row returns.
pub data Row : Type 0 where
  row : RawMessage → Row
  no_rows : Row
  failed : String → Row

-- The database's state and the statements that the program runs on it, each with its context.
pub record Sqlite (D : Type 0) : Type 0 where
  pub open_db : String → Result D
  pub create_table : D → Result D
  pub close_db : Go D (Result (Unit {0}))
  pub insert_or_replace : ℕ → String → ℕ → RawMessage → Go D (Result (Unit {0}))
  pub select_latest : ℕ → String → D → Row
  pub delete_rows : ℕ → String → Go D (Result (Unit {0}))

-- `db` is nil until it is set.
abbrev pub SqliteStorage : Type 0 → Type 0
SqliteStorage D = Queued (Option D)

unfoldable pub new_sqlite_storage : {D : Type 0} → SqliteStorage D
new_sqlite_storage = record { database = none; write_queue = []; closed = false; running = false }

module _ {D : Type 0} (sqlite : Sqlite D) where
  -- The opened database stays in a local variable: the field `db` is not set, and a database whose
  -- table cannot be made is closed and forgotten.
  abbrev opened : Result D → Go (SqliteStorage D) (Result (Unit {0}))
  opened (err e) = pure (err e)
  opened (ok db) = elim (sqlite.create_table db) [
    | err e ↦ pure (err e)
    | ok db' ↦ (do start_writer; pure (ok tt))
  ]

  unfoldable pub open_storage : String → Go (SqliteStorage D) (Result (Unit {0}))
  unfolding start_writer
  open_storage path = opened (sqlite.open_db path)

  abbrev close_database : Option D → Go (SqliteStorage D) (Result (Unit {0}))
  close_database none = pure (ok tt)
  close_database (some db) = on_database (on_opened sqlite.close_db)

  unfoldable pub close_storage : Go (SqliteStorage D) (Result (Unit {0}))
  unfolding close_queue
  close_storage = do close_queue; db ← gets (λ s. s.database); close_database db

  unfoldable pub put : DbWriteRequest → Go (Option D) (Result (Unit {0}))
  put request = on_opened (
      sqlite.insert_or_replace request.write_ctx request.key request.timestamp
        (encoded (obj request.value)))

  -- One round of its writer.
  unfoldable pub writer_round : Go (Stored (SqliteStorage D)) (Unit {0})
  unfolding writer_step put
  writer_round = writer_step put

  abbrev choose : Bool → DbWriteRequest → Go (Stored (SqliteStorage D)) (Unit {0})
  choose true request = enqueue request
  choose false request = refuse request.err_ch full_text

  unfoldable pub async_put : ℕ → String → Fields → ℕ → Go (Stored (SqliteStorage D)) ℕ
  unfolding refuse enqueue has_room
  async_put ctx key value timestamp = do
    ch ← on_runtime (make_channel 1)
    s ← gets (λ s. s)
    if s.db.closed
        then refuse ch closed_text
        else choose (has_room s.db) (record {
          key = key;
          value = value;
          err_ch = ch;
          write_ctx = ctx;
          timestamp = timestamp;
        })
    pure ch

  -- What json.Unmarshal says of the data is ignored.
  abbrev or_nil : Result (Option Fields) → Option Fields
  or_nil (ok value) = value
  or_nil (err e) = none

  abbrev decode : Row → Result (Option Fields)
  decode (row raw) = ok (or_nil (unmarshal raw))
  decode no_rows = ok none
  decode (failed e) = err e

  abbrev read_opened : ℕ → String → Option D → Go (SqliteStorage D) (Result (Option Fields))
  read_opened ctx key none = panic nil_database
  read_opened ctx key (some db) = pure (decode (sqlite.select_latest ctx key db))

  unfoldable pub get : ℕ → String → Go (SqliteStorage D) (Result (Option Fields))
  unfolding unmarshal
  get ctx key s = read_opened ctx key s.database s

  unfoldable pub delete : ℕ → String → Go (SqliteStorage D) (Result (Unit {0}))
  delete ctx key = on_database (on_opened (sqlite.delete_rows ctx key))

  abbrev pub sqlite_storage : Storage (SqliteStorage D)
  sqlite_storage = record { async_put = async_put; get = get; delete = delete }
