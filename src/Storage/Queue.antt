-- ===== src/Storage/Queue.antt =====
-- What badger.go and sqlite.go of server/internal/storage share: a bounded queue of write requests,
-- and the goroutine that takes them one by one.
use data_loom.Common.{
  ℕ, zero, suc, String, Bool, true, false, Option, none, some, List, [], ◌∷◌, ◌++◌, Go, done,
  parked, panic, Result, ok, err, length, ltb, if◌then◌else◌, pure, zoom, gets, modify, ◌>>=◌, ◌>>◌,
}
use data_loom.Schema.{Fields}
use data_loom.Runtime.{context_error, send, close, context_done}
use data_loom.Storage.{Stored, on_runtime, on_db}

-- dbWriteRequest. Each request has a channel.
pub record DbWriteRequest : Type 0 where
  pub key : String
  pub value : Fields
  pub err_ch : ℕ
  pub write_ctx : ℕ
  pub timestamp : ℕ

abbrev pub queue_capacity : ℕ
queue_capacity = 5000

-- The queue, the flag that Close sets and the writer, beside the database's own state.
pub record Queued (D : Type 0) : Type 0 where
  pub database : D
  pub write_queue : List DbWriteRequest
  pub closed : Bool
  -- whether the writer's goroutine runs
  pub running : Bool

abbrev pub error_of : {A : Type 0} → Result A → Option String
error_of (ok a) = none
error_of (err e) = some e

abbrev pub nil_database : String
nil_database = "invalid memory address or nil pointer dereference"

abbrev pub closed_text : String
closed_text = "storage is closed"

abbrev pub full_text : String
full_text = "write queue is full"

-- A call on a database that may be nil.
abbrev pub on_opened : {D A : Type 0} → Go D A → Go (Option D) A
on_opened m none = panic nil_database none
on_opened m (some d) = elim (m d) [
  | done a d' ↦ done a (some d')
  | parked d' ↦ parked (some d')
  | panic e d' ↦ panic e (some d')
]

module _ {D : Type 0} where
  abbrev pub on_database : {A : Type 0} → Go D A → Go (Queued D) A
  on_database = zoom (λ q. q.database) (λ d q. record q { database = d })

  -- A channel with an error in it, closed.
  unfoldable pub refuse : ℕ → String → Go (Stored (Queued D)) (Unit {0})
  refuse ch text = do on_runtime (send ch (some text)); on_runtime (close ch)

  unfoldable pub enqueue : DbWriteRequest → Go (Stored (Queued D)) (Unit {0})
  enqueue request =
      modify λ s. record s { db = record s.db { write_queue = s.db.write_queue ++ request ∷ [] } }

  -- startWriter
  unfoldable pub start_writer : Go (Queued D) (Unit {0})
  start_writer = modify λ q. record q { running = true }

  -- The server's own context is done: the writer returns, whatever is queued.
  unfoldable pub stop_writer : Go (Queued D) (Unit {0})
  stop_writer = modify λ q. record q { running = false }

  unfoldable pub has_room : Queued D → Bool
  has_room q = ltb (length q.write_queue) queue_capacity

  -- The first half of Close.
  unfoldable pub close_queue : Go (Queued D) (Unit {0})
  close_queue = modify λ q. record q { closed = true }

module _ {D : Type 0} (put : DbWriteRequest → Go D (Result (Unit {0}))) where
  -- One request: dropped if its context is done by now, and the channel stays open; else written.
  unfoldable pub write_request : DbWriteRequest → Go (Stored (Queued D)) (Unit {0})
  write_request request = do
    cancelled ← gets (λ s. context_done request.write_ctx s.runtime)
    text ← gets (λ s. context_error request.write_ctx s.runtime)
    if cancelled then on_runtime (send request.err_ch (some text)) else (do
      result ← on_db (on_database (put request))
      on_runtime (send request.err_ch (error_of result))
      on_runtime (close request.err_ch))

  abbrev write_first : List DbWriteRequest → Go (Stored (Queued D)) (Unit {0})
  write_first [] = λ s.
      if s.db.closed then done tt (record s { db = record s.db { running = false } }) else parked s
  write_first (request ∷ rest) = do
    modify λ s. record s { db = record s.db { write_queue = rest } }
    write_request request

  -- One round of the writer's loop; it waits while the queue is empty, and returns
  -- once the queue is closed too.
  unfoldable pub writer_step : Go (Stored (Queued D)) (Unit {0})
  unfolding write_request
  writer_step = do queue ← gets (λ s. s.db.write_queue); write_first queue

  -- So many rounds of the loop.
  unfoldable pub writer_rounds : ℕ → Go (Stored (Queued D)) (Unit {0})
  unfolding writer_step
  writer_rounds zero = pure tt
  writer_rounds (suc n) = do writer_step; writer_rounds n
