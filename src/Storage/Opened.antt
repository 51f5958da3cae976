-- ===== src/Storage/Opened.antt =====
-- NewStorage of server/internal/storage/storage.go: the storage that it returns, as one whose calls
-- return.
use data_loom.Common.{
  ℕ, String, ◌≡◌, ◌≢◌, refl, subst, inl, inr, true, false, Option, some, [], arith, Outcome, done,
  Result, ok, err, ◌==◌, ==_iff, ◌||◌, Bool-cases, string_eq,
}
use data_loom.Config.{Config}
use data_loom.Schema.{Fields}
use data_loom.Storage.{Stored}
use data_loom.Storage.Queue.{start_writer, close_queue}
use data_loom.Storage.NullStorage
use data_loom.Storage.NullStorage.{NullStorage, null_storage}
use data_loom.Storage.Badger
use data_loom.Storage.Badger.{Badger, BadgerStorage, new_badger_storage, badger_storage}
use data_loom.Storage.Sqlite.{Sqlite}
use data_loom.Storage.Choice
use data_loom.Storage.Choice.{
  AnyStorage, of_badger, of_sqlite, of_null, if_opened, through, held_by, put_in, new_storage,
  any_storage,
}
use data_loom.Storage.Answering.{Total, null_storage-Total, BadgerOpen, badger_storage-Total}

-- Sqlite's storage never has its database.
abbrev pub AnyOpen : {B D : Type 0} → AnyStorage B D → Type 0
AnyOpen (of_badger q) = BadgerOpen q
AnyOpen (of_sqlite q) = ⊥
AnyOpen (of_null q) = Unit

-- Deletions and the closing of a database return.
pub record Returning {B : Type 0} (badger : Badger B) : Type 0 where
  pub deletes :
      (key : String) (d : B)
      → (r : Result (Unit {0})) × (d' : B) × (badger.delete_key key d ≡ done r d')
  pub closes : (d : B) → (r : Result (Unit {0})) × (d' : B) × (badger.close_db d ≡ done r d')

module _ {B D : Type 0} (badger : Badger B) (sqlite : Sqlite D) (returning : Returning badger) where
  abbrev badger_total : Total (badger_storage badger) BadgerOpen
  badger_total = badger_storage-Total badger returning.deletes

  put_opened :
      (ctx : ℕ) (key : String) (value : Fields) (now : ℕ) (db : AnyStorage B D)
      (s : Stored (AnyStorage B D))
      → AnyOpen db
      → (ch : ℕ) × (s' : Stored (AnyStorage B D)) × (put_in badger sqlite ctx key value now db s
          ≡ done ch s')
        × AnyOpen s'.db
  put_opened ctx key value now (of_badger q) s h =
      let (ch, s', e, h') =
        badger_total.puts ctx key value now (record { db = q; runtime = s.runtime }) h in
      (ch, held_by of_badger s', rw e, h')
  put_opened ctx key value now (of_sqlite q) s h = absurd h
  put_opened ctx key value now (of_null q) s h =
      let (ch, s', e, h') =
        null_storage-Total.puts ctx key value now (record { db = q; runtime = s.runtime }) h in
      (ch, held_by of_null s', rw e, h')

  get_opened :
      (ctx : ℕ) (key : String) (db : AnyStorage B D)
      → AnyOpen db
      → (r : Result (Option Fields)) × (db' : AnyStorage B D) × (Choice.get badger sqlite ctx key db
          ≡ done r db')
        × AnyOpen db'
  unfolding Choice.get
  get_opened ctx key (of_badger q) h =
      let (r, q', e, h') = badger_total.gets ctx key q h in (r, of_badger q', ground (arith, e), h')
  get_opened ctx key (of_sqlite q) h = absurd h
  get_opened ctx key (of_null q) h =
      let (r, q', e, h') = null_storage-Total.gets ctx key q h in
      (r, of_null q', ground (arith, e), h')

  delete_opened :
      (ctx : ℕ) (key : String) (db : AnyStorage B D)
      → AnyOpen db
      → (r : Result (Unit {0})) × (db' : AnyStorage B D) × (Choice.delete badger sqlite ctx key db
          ≡ done r db')
        × AnyOpen db'
  unfolding Choice.delete
  delete_opened ctx key (of_badger q) h =
      let (r, q', e, h') = badger_total.deletes ctx key q h in
      (r, of_badger q', ground (arith, e), h')
  delete_opened ctx key (of_sqlite q) h = absurd h
  delete_opened ctx key (of_null q) h =
      let (r, q', e, h') = null_storage-Total.deletes ctx key q h in
      (r, of_null q', ground (arith, e), h')

  pub any_storage-Total : Total (any_storage badger sqlite) AnyOpen
  unfolding Choice.async_put
  any_storage-Total = record {
    puts = λ ctx key value now s h. put_opened ctx key value now s.db s h;
    gets = get_opened;
    deletes = delete_opened;
  }

  -- An open storage can be closed.
  pub close_opened :
      (db : AnyStorage B D)
      → AnyOpen db
      → (r : Result (Unit {0})) × (db' : AnyStorage B D) × (Choice.close_storage badger sqlite db
          ≡ done r db')
  unfolding Choice.close_storage Badger.close_storage close_queue NullStorage.close_storage
  close_opened (of_badger q) (d, there, low) =
      let (r, d', e) = returning.closes d in
      (r, of_badger (record q { closed = true; database = some d' }), ground (arith, there, e))
  close_opened (of_sqlite q) h = absurd h
  close_opened (of_null q) h = (ok tt, of_null q, refl)

module _ {B D : Type 0} (badger : Badger B) (sqlite : Sqlite D) where
  open_badger :
      (path : String) (r : Result B) (db : AnyStorage B D)
      → if_opened of_badger (Badger.opened badger r new_badger_storage) ≡ done (ok db) tt
      → AnyOpen db
  unfolding start_writer new_badger_storage
  open_badger path (ok d) db e =
      let same : of_badger
            (record { database = some d; write_queue = []; closed = false; running = true })
          ≡ db =
        cc in
      subst AnyOpen same (d, refl, omega arith)
  open_badger path (err text) db e = cc

  -- The storage that the settings lead to is open, unless it is Sqlite's.
  pub new_storage-open :
      (config : Config) (db : AnyStorage B D)
      → new_storage badger sqlite config ≡ done (ok db) tt
      → config.storage_type ≢ "sqlite"
      → AnyOpen db
  unfolding new_storage
  new_storage-open config db e ne = elim (Bool-cases (config.storage_type == "badger")) [
    | inl yes' ↦
        open_badger config.storage_path (badger.open_db config.storage_path) db
          (ground (arith, e, yes'))
    | inr not_badger ↦ elim (Bool-cases (config.storage_type == "sqlite")) [
      | inl yes' ↦ absurd (ne ((==_iff config.storage_type "sqlite").0 yes'))
      | inr not_sqlite ↦
          elim (Bool-cases (config.storage_type == "none" || config.storage_type == "")) [
            | inl none' ↦
                let made : Outcome (Unit {0}) (Result (AnyStorage B D)) =
                  done (ok (of_null NullStorage.new_null_storage)) tt in
                let found : made ≡ done (ok db) tt =
                  ground (arith, e, not_badger, not_sqlite, none') in
                let same : of_null NullStorage.new_null_storage ≡ db = cc in subst AnyOpen same tt
            | inr unknown ↦ absurd (ground (arith, e, not_badger, not_sqlite, unknown))
          ]
    ]
  ]
