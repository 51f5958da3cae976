-- ===== src/Storage/Answering.antt =====
-- What the topic manager's callers need of a storage (server/internal/storage/storage.go), and the null
-- storage (null_storage.go) and an opened Badger storage (badger.go) as ones that give it.
use data_loom.Common.{
  ℕ, ◌≤◌, ◌∙◌, String, ◌≡◌, refl, false, Option, none, some, [], ◌∷◌, ◌++◌, arith, done, Result, ok,
  length, get_elem?-append_last, get_elem?-set_self,
}
use data_loom.Schema.{Fields}
use data_loom.Runtime.{Channel, make_channel}
use data_loom.Storage.{Storage, Stored}
use data_loom.Storage.NullStorage
use data_loom.Storage.NullStorage.{NullStorage, null_storage}
use data_loom.Storage.Queue.{queue_capacity}
use data_loom.Storage.Queueing.{async_put_badger}
use data_loom.Storage.Badger
use data_loom.Storage.Badger.{Badger, BadgerStorage, badger_storage}
use data_loom.Storage.Writing.{with_channel, sent, ended, send_lem, close_lem}

-- A storage whose calls return while it is open, and leave it open.
pub record Total {S : Type 0} (storage : Storage S) (Open : S → Type 0) : Type 0 where
  pub puts :
      (ctx : ℕ) (key : String) (value : Fields) (now : ℕ) (s : Stored S)
      → Open s.db
      → (ch : ℕ) × (s' : Stored S) × (storage.async_put ctx key value now s ≡ done ch s')
        × Open s'.db
  pub gets :
      (ctx : ℕ) (key : String) (db : S)
      → Open db
      → (r : Result (Option Fields)) × (db' : S) × (storage.get ctx key db ≡ done r db') × Open db'
  pub deletes :
      (ctx : ℕ) (key : String) (db : S)
      → Open db
      → (r : Result (Unit {0})) × (db' : S) × (storage.delete ctx key db ≡ done r db') × Open db'

-- The null storage needs no opening.
abbrev pub AlwaysOpen : NullStorage → Type 0
AlwaysOpen db = Unit

-- NullStorage's AsyncPut returns a closed channel that holds a nil error.
null_storage-puts :
    (ctx : ℕ) (key : String) (value : Fields) (now : ℕ) (s : Stored NullStorage)
    → (ch : ℕ) × (s' : Stored NullStorage) × (null_storage.async_put ctx key value now s
        ≡ done ch s')
unfolding NullStorage.async_put make_channel
null_storage-puts ctx key value now s =
    let fresh : Channel = record { capacity = 1; buffer = []; closed = false } in
    let c = length s.runtime.channels in
    let rt = record s.runtime { channels = s.runtime.channels ++ fresh ∷ [] } in
    let there = get_elem?-append_last s.runtime.channels fresh in
    let rt1 = with_channel c (sent fresh none) rt in
    let at1 = get_elem?-set_self rt.channels c (sent fresh none) fresh there in
    (
      c,
      record s { runtime = with_channel c (ended (sent fresh none)) rt1 },
      ground (
        arith,
        send_lem c none rt fresh there refl (omega arith),
        close_lem c rt1 (sent fresh none) at1 refl,
      ),
    )

pub null_storage-Total : Total null_storage AlwaysOpen
unfolding NullStorage.get NullStorage.delete
null_storage-Total = record {
  puts = λ ctx key value now s open_now.
      let (ch, s', e) = null_storage-puts ctx key value now s in (ch, s', e, tt);
  gets = λ ctx key db open_now. (ok none, db, refl, tt);
  deletes = λ ctx key db open_now. (ok tt, db, refl, tt);
}

-- Badger's database is there, and its queue within the capacity.
abbrev pub BadgerOpen : {D : Type 0} → BadgerStorage D → Type 0
BadgerOpen {D} q = (d : D) × (q.database ≡ some d) × (length q.write_queue ≤ queue_capacity)

pub badger_storage-Total :
    {D : Type 0} (badger : Badger D)
    → ((key : String) (d : D)
        → (r : Result (Unit {0})) × (d' : D) × (badger.delete_key key d ≡ done r d'))
    → Total (badger_storage badger) BadgerOpen
unfolding Badger.get Badger.delete
badger_storage-Total badger deletes = record {
  puts = λ ctx key value now s (d, there, low).
      let (s', e, low', same, _) = async_put_badger badger ctx key value now s low in
      (length s.runtime.channels, s', e, (d, same ∙ there, low'));
  gets = λ ctx key db (d, there, low).
      (Badger.decode badger (badger.read_key key d), db, ground (arith, there), (d, there, low));
  deletes = λ ctx key db (d, there, low).
      let (r, d', e) = deletes key d in
      (r, record db { database = some d' }, ground (arith, there, e), (d', refl, low));
}
