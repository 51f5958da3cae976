-- ===== src/Logging.antt =====
-- server/internal/logging/rwmutex.go: the read-write lock that logs. What it logs is not modelled.
use data_loom.Common.{ℕ, zero, suc, ◌+◌, Bool, true, false, Outcome, Go, done, parked, panic}

-- What sync.RWMutex keeps: a writer, or a number of readers.
pub record RwMutex : Type 0 where
  pub writer : Bool
  pub readers : ℕ

-- NewDebugRWMutex
abbrev pub unlocked : RwMutex
unlocked = record { writer = false; readers = 0 }

abbrev reader_enters : Bool → RwMutex → Outcome RwMutex (Unit {0})
reader_enters true m = parked m
reader_enters false m = done tt (record m { readers = m.readers + 1 })

abbrev writer_enters : Bool → ℕ → RwMutex → Outcome RwMutex (Unit {0})
writer_enters false zero m = done tt (record m { writer = true })
writer_enters _ _ m = parked m

abbrev reader_leaves : ℕ → RwMutex → Outcome RwMutex (Unit {0})
reader_leaves zero m = panic "sync: RUnlock of unlocked RWMutex" m
reader_leaves (suc n) m = done tt (record m { readers = n })

abbrev writer_leaves : Bool → RwMutex → Outcome RwMutex (Unit {0})
writer_leaves false m = panic "sync: Unlock of unlocked RWMutex" m
writer_leaves true m = done tt (record m { writer = false })

unfoldable pub r_lock : Go RwMutex (Unit {0})
r_lock m = reader_enters m.writer m

unfoldable pub r_unlock : Go RwMutex (Unit {0})
r_unlock m = reader_leaves m.readers m

unfoldable pub lock : Go RwMutex (Unit {0})
lock m = writer_enters m.writer m.readers m

unfoldable pub unlock : Go RwMutex (Unit {0})
unlock m = writer_leaves m.writer m
