-- ===== src/Storage/Choice.antt =====
-- NewStorage of server/internal/storage/storage.go: which storage the settings ask for, and the calls of
-- the interface on whichever it is.
use data_loom.Common.{
  ℕ, String, Option, ◌<>◌, Go, Outcome, done, parked, panic, Result, ok, err, ◌==◌, ◌||◌,
  if◌then◌else◌, string_eq,
}
use data_loom.Config.{Config}
use data_loom.Schema.{Fields}
use data_loom.Storage.{Storage, Stored}
use data_loom.Storage.NullStorage
use data_loom.Storage.NullStorage.{NullStorage}
use data_loom.Storage.Badger
use data_loom.Storage.Badger.{Badger, BadgerStorage, new_badger_storage}
use data_loom.Storage.Sqlite
use data_loom.Storage.Sqlite.{Sqlite, SqliteStorage, new_sqlite_storage}

-- A value of the interface: one of the three storages.
pub data AnyStorage (B D : Type 0) : Type 0 where
  of_badger : BadgerStorage B → AnyStorage B D
  of_sqlite : SqliteStorage D → AnyStorage B D
  of_null : NullStorage → AnyStorage B D

-- Open's error, or the storage that Open has changed.
abbrev pub if_opened :
    {S T : Type 0} → (S → T) → Outcome S (Result (Unit {0})) → Outcome (Unit {0}) (Result T)
if_opened wrap (done (ok _) s) = done (ok (wrap s)) tt
if_opened wrap (done (err e) s) = done (err e) tt
if_opened wrap (parked s) = parked tt
if_opened wrap (panic e s) = panic e tt

module _ {B D : Type 0} (badger : Badger B) (sqlite : Sqlite D) where
  unfoldable pub new_storage : Config → Outcome (Unit {0}) (Result (AnyStorage B D))
  unfolding Badger.open_storage Sqlite.open_storage new_badger_storage new_sqlite_storage
      NullStorage.new_null_storage
  new_storage config =
      if config.storage_type == "badger"
      then if_opened of_badger (Badger.open_storage badger config.storage_path new_badger_storage)
      else if config.storage_type == "sqlite"
      then if_opened of_sqlite (Sqlite.open_storage sqlite config.storage_path new_sqlite_storage)
      else if config.storage_type == "none" || config.storage_type == ""
      then done (ok (of_null NullStorage.new_null_storage)) tt
      else done (err ("unknown storage type: " <> config.storage_type)) tt

-- A call on one of the three, as a call on the value of the interface.
abbrev pub through : {S T A : Type 0} → (S → T) → Outcome S A → Outcome T A
through wrap (done a s) = done a (wrap s)
through wrap (parked s) = parked (wrap s)
through wrap (panic e s) = panic e (wrap s)

abbrev pub held_by : {S T : Type 0} → (S → T) → Stored S → Stored T
held_by wrap s = record { db = wrap s.db; runtime = s.runtime }

module _ {B D : Type 0} (badger : Badger B) (sqlite : Sqlite D) where
  abbrev pub put_in : ℕ → String → Fields → ℕ → AnyStorage B D → Go (Stored (AnyStorage B D)) ℕ
  put_in ctx key value now (of_badger q) s =
      through (held_by of_badger)
        (Badger.async_put badger ctx key value now (record { db = q; runtime = s.runtime }))
  put_in ctx key value now (of_sqlite q) s =
      through (held_by of_sqlite)
        (Sqlite.async_put sqlite ctx key value now (record { db = q; runtime = s.runtime }))
  put_in ctx key value now (of_null q) s =
      through (held_by of_null)
        (NullStorage.async_put ctx key value now (record { db = q; runtime = s.runtime }))

  unfoldable pub async_put : ℕ → String → Fields → ℕ → Go (Stored (AnyStorage B D)) ℕ
  unfolding Badger.async_put Sqlite.async_put NullStorage.async_put
  async_put ctx key value now s = put_in ctx key value now s.db s

  unfoldable pub get : ℕ → String → Go (AnyStorage B D) (Result (Option Fields))
  unfolding Badger.get Sqlite.get NullStorage.get
  get ctx key (of_badger q) = through of_badger (Badger.get badger ctx key q)
  get ctx key (of_sqlite q) = through of_sqlite (Sqlite.get sqlite ctx key q)
  get ctx key (of_null q) = through of_null (NullStorage.get ctx key q)

  unfoldable pub delete : ℕ → String → Go (AnyStorage B D) (Result (Unit {0}))
  unfolding Badger.delete Sqlite.delete NullStorage.delete
  delete ctx key (of_badger q) = through of_badger (Badger.delete badger ctx key q)
  delete ctx key (of_sqlite q) = through of_sqlite (Sqlite.delete sqlite ctx key q)
  delete ctx key (of_null q) = through of_null (NullStorage.delete ctx key q)

  unfoldable pub close_storage : Go (AnyStorage B D) (Result (Unit {0}))
  unfolding Badger.close_storage Sqlite.close_storage NullStorage.close_storage
  close_storage (of_badger q) = through of_badger (Badger.close_storage badger q)
  close_storage (of_sqlite q) = through of_sqlite (Sqlite.close_storage sqlite q)
  close_storage (of_null q) = through of_null (NullStorage.close_storage q)

  abbrev pub any_storage : Storage (AnyStorage B D)
  any_storage = record { async_put = async_put; get = get; delete = delete }
