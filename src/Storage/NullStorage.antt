-- ===== src/Storage/NullStorage.antt =====
-- server/internal/storage/null_storage.go: the storage that keeps nothing.
use data_loom.Common.{ℕ, String, Option, none, Go, Result, ok, pure, ◌>>=◌, ◌>>◌}
use data_loom.Schema.{Fields}
use data_loom.Runtime.{make_channel, send, close}
use data_loom.Storage.{Storage, Stored, on_runtime}

pub record NullStorage : Type 0 where

unfoldable pub new_null_storage : NullStorage
new_null_storage = record {}

unfoldable pub open_storage : String → Go NullStorage (Result (Unit {0}))
open_storage path = pure (ok tt)

unfoldable pub close_storage : Go NullStorage (Result (Unit {0}))
close_storage = pure (ok tt)

unfoldable pub async_put : ℕ → String → Fields → ℕ → Go (Stored NullStorage) ℕ
async_put ctx key value timestamp = do
  ch ← on_runtime (make_channel 1)
  on_runtime (send ch none)
  on_runtime (close ch)
  pure ch

unfoldable pub get : ℕ → String → Go NullStorage (Result (Option Fields))
get ctx key = pure (ok none)

unfoldable pub delete : ℕ → String → Go NullStorage (Result (Unit {0}))
delete ctx key = pure (ok tt)

abbrev pub null_storage : Storage NullStorage
null_storage = record { async_put = async_put; get = get; delete = delete }
