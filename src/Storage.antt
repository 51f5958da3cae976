-- ===== src/Storage.antt =====
-- server/internal/storage/storage.go: the interface that the topic manager stores values through.
pub mod NullStorage
pub mod Queue
pub mod Badger
pub mod Sqlite
pub mod Writing
pub mod Answering
pub mod RoundTrip
pub mod Draining
pub mod Owning
pub mod Ordering
pub mod Queueing
pub mod Choice
pub mod Opened
use data_loom.Common.{ℕ, String, Option, Go, Outcome, done, parked, panic, Result, zoom}
use data_loom.Schema.{Fields}
use data_loom.Runtime.{Runtime}

-- A storage and the runtime that its goroutines and channels live in.
pub record Stored (S : Type 0) : Type 0 where
  pub db : S
  pub runtime : Runtime

-- `AsyncPut` is given the context, the key, the value and the time, and returns a channel; `Get` and
-- `Delete` are given the context and the key.
pub record Storage (S : Type 0) : Type 0 where
  pub async_put : ℕ → String → Fields → ℕ → Go (Stored S) ℕ
  pub get : ℕ → String → Go S (Result (Option Fields))
  pub delete : ℕ → String → Go S (Result (Unit {0}))

module _ {S : Type 0} where
  abbrev pub on_runtime : {A : Type 0} → Go Runtime A → Go (Stored S) A
  on_runtime = zoom (λ s. s.runtime) (λ r s. record s { runtime = r })

  abbrev pub on_db : {A : Type 0} → Go S A → Go (Stored S) A
  on_db = zoom (λ s. s.db) (λ d s. record s { db = d })
