-- ===== src/Examples/Storages.antt =====
-- Writes to a database that keeps one value, and settings.
use data_loom.Common.{
  ◌≤◌, ◌≡◌, refl, Bool, true, false, Option, none, some, [], ◌∷◌, arith, done, panic, ok, get_elem?,
}
use data_loom.Common.{String, List, Go, Result, ◌>>◌}
use data_loom.Storage.Draining.{Unanswered, Answered, stored_by, with_queue, Rests, writer_drains}
use data_loom.Storage.Owning.{async_put-Unanswered}
use data_loom.Storage.Ordering.{
  Call, requests_of, async_puts, set_result, set_after, puts_are_written,
}
use data_loom.Examples.{short_reading}
use data_loom.Config.{Config, Environment, load, load_port}
use data_loom.Config.Ports.{load_bounds}
use data_loom.Schema.{obj}
use data_loom.Network.{RawMessage, encoded}
use data_loom.Runtime.{Runtime, Channel, started, context_done}
use data_loom.Storage.{Stored}
use data_loom.Storage.Queue.{DbWriteRequest, writer_rounds, nil_database}
use data_loom.Storage.RoundTrip.{
  idle, acknowledged, put_then_get_badger, get_badger-async_put_badger,
}
use data_loom.Storage.Queueing.{Bounded, async_put_badger, open_leaves_nil}
use data_loom.Storage.Badger
use data_loom.Storage.Badger.{Badger, BadgerStorage, Found, found, key_not_found}
use data_loom.Storage.Sqlite
use data_loom.Storage.Sqlite.{Sqlite, SqliteStorage, Row, row, no_rows, new_sqlite_storage}
use data_loom.Examples.{reading}

-- The value that is kept, if there is one.
abbrev pub Cell : Type 0
Cell = Option RawMessage

abbrev read_cell : Cell → Found
read_cell none = key_not_found
read_cell (some raw) = found raw

abbrev select_cell : Cell → Row
select_cell none = no_rows
select_cell (some raw) = row raw

abbrev pub badger_cell : Badger Cell
badger_cell = record {
  open_db = λ path. ok none;
  close_db = λ d. done (ok tt) d;
  set_key = λ key raw d. done (ok tt) (some raw);
  read_key = λ key d. read_cell d;
  delete_key = λ key d. done (ok tt) none;
}

abbrev pub sqlite_cell : Sqlite Cell
sqlite_cell = record {
  open_db = λ path. ok none;
  create_table = λ d. ok d;
  close_db = λ d. done (ok tt) d;
  insert_or_replace = λ ctx key time raw d. done (ok tt) (some raw);
  select_latest = λ ctx key d. select_cell d;
  delete_rows = λ ctx key d. done (ok tt) none;
}

abbrev waiting : Channel
waiting = record { capacity = 1; buffer = []; closed = false }

abbrev request : DbWriteRequest
request = record { key = "weather"; value = reading; err_ch = 0; write_ctx = 0; timestamp = 0 }

-- The request's context is done, or not.
abbrev storage : Bool → Stored (BadgerStorage Cell)
storage over = record {
  db = record { database = some none; write_queue = []; closed = false; running = true };
  runtime = record (started 0) { channels = waiting ∷ []; contexts = over ∷ [] };
}

async_put_badger_example :
    Bounded (Badger.async_put badger_cell 0 "weather" reading 0 (storage true)) (storage true)
async_put_badger_example =
    async_put_badger badger_cell 0 "weather" reading 0 (storage true) (omega arith)

open_leaves_nil_example :
    (s : SqliteStorage Cell) × (Sqlite.open_storage sqlite_cell "./tmp/data" new_sqlite_storage
      ≡ done (ok tt) s)
    × (s.running ≡ true)
    × (Sqlite.get sqlite_cell 0 "weather" s ≡ panic nil_database s)
    × (Sqlite.delete sqlite_cell 0 "weather" s ≡ panic nil_database s)
    × ((request : DbWriteRequest) (rt : Runtime)
        → context_done request.write_ctx rt ≡ false
        → Sqlite.writer_round sqlite_cell
            (record { db = record s { write_queue = request ∷ [] }; runtime = rt })
          ≡ panic nil_database (record { db = s; runtime = rt }))
open_leaves_nil_example = open_leaves_nil sqlite_cell "./tmp/data" "weather" 0 none none refl refl

abbrev pub environment : Environment
environment = record {
  my_server_key = "";
  storage_type = "badger";
  storage_path = "";
  port_number = "9090";
}

abbrev pub settings : Config
settings = record {
  api_key = "";
  storage_type = "badger";
  storage_path = "./tmp/data";
  port_number = 9090;
}

pub loaded : load environment ≡ ok settings
unfolding load
loaded = refl

load_bounds_example : (load_port "9090" ≡ ok 9090) × (1 ≤ 9090) × (9090 ≤ 65535)
load_bounds_example = load_bounds environment settings loaded

-- A context that is not done, for the read as for the write.
abbrev wanted : Runtime
wanted = record (started 0) { contexts = false ∷ [] }

wanted_still : context_done 0 wanted ≡ false
unfolding context_done
wanted_still = refl

get_badger-async_put_badger_example :
    (rt' : Runtime) × (put_then_get_badger wanted true 0 0 "weather" reading 0 wanted_still none
        (some (encoded (obj reading)))
        badger_cell
        (idle wanted true none)
      ≡ done
          (0, ok (some reading))
          (record (idle wanted true (some (encoded (obj reading)))) { runtime = rt' }))
    × (get_elem? rt'.channels 0 ≡ some acknowledged)
get_badger-async_put_badger_example =
    get_badger-async_put_badger wanted true 0 0 "weather" reading 0 wanted_still none
      (some (encoded (obj reading))) badger_cell refl refl

abbrev cell_result : String → RawMessage → Cell → Result (Unit {0})
cell_result key raw d = ok tt

abbrev cell_after : String → RawMessage → Cell → Cell
cell_after key raw d = some raw

-- Two values for the same key.
abbrev two_calls : List Call
two_calls = (0, "weather", short_reading) ∷ (0, "weather", reading) ∷ []

puts_are_written_example :
    (rt' : Runtime) × ((do
      async_puts badger_cell 0 two_calls
      writer_rounds (Badger.put badger_cell) 2)
        (idle wanted true none)
      ≡ done tt (record (idle wanted true (some (encoded (obj reading)))) { runtime = rt' }))
    × Answered
        (set_result badger_cell cell_result cell_after (λ key raw d. refl))
        (set_after badger_cell cell_result cell_after (λ key raw d. refl))
        wanted
        rt'
        (requests_of 0 two_calls)
        none
puts_are_written_example =
    puts_are_written badger_cell cell_result cell_after (λ key raw d. refl) wanted true 0 two_calls
      none (omega arith) (wanted_still, (wanted_still, tt))

-- A request whose context is done, before one whose context is not.
abbrev late_request : DbWriteRequest
late_request = record { key = "weather"; value = reading; err_ch = 0; write_ctx = 0; timestamp = 0 }

abbrev next_request : DbWriteRequest
next_request = record {
  key = "weather";
  value = short_reading;
  err_ch = 1;
  write_ctx = 1;
  timestamp = 0;
}

abbrev two_requests : List DbWriteRequest
two_requests = late_request ∷ next_request ∷ []

abbrev queueing : Runtime
queueing = record (started 0) { channels = waiting ∷ waiting ∷ []; contexts = true ∷ false ∷ [] }

two_requests-Unanswered : Unanswered queueing two_requests
two_requests-Unanswered = (refl, ((λ e. omega (arith, e)), tt), (refl, tt, tt))

abbrev cell_put : DbWriteRequest → Go (Option Cell) (Result (Unit {0}))
cell_put q d = done (ok tt) (some (some (encoded (obj q.value))))

writer_drains_example :
    (rt' : Runtime) × (writer_rounds cell_put 2
        (with_queue cell_put true true queueing two_requests none)
      ≡ done tt (
          with_queue cell_put true true rt' [] (
            stored_by
              (λ q d. ok tt)
              (λ q d. some (encoded (obj q.value)))
              queueing
              two_requests
              none)))
    × Answered (λ q d. ok tt) (λ q d. some (encoded (obj q.value))) queueing rt' two_requests none
    × Rests cell_put true true true rt'
        (stored_by (λ q d. ok tt) (λ q d. some (encoded (obj q.value))) queueing two_requests none)
writer_drains_example =
    writer_drains cell_put true true (λ q d. ok tt) (λ q d. some (encoded (obj q.value)))
      (λ q d. refl) two_requests none queueing two_requests-Unanswered

async_put-Unanswered_example :
    (s' : Stored (BadgerStorage Cell)) × (Badger.async_put badger_cell 1 "weather" reading 0
        (with_queue cell_put false true queueing two_requests none)
      ≡ done 2 s')
    × Unanswered s'.runtime s'.db.write_queue
async_put-Unanswered_example =
    async_put-Unanswered badger_cell 1 "weather" reading 0
      (with_queue cell_put false true queueing two_requests none) two_requests-Unanswered
