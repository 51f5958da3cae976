-- ===== src/Storage/Queueing.antt =====
-- AsyncPut of server/internal/storage/badger.go and sqlite.go, and Open of sqlite.go.
use data_loom.Common.{
  ℕ, ◌≤◌, ◌<◌, String, ◌≡◌, refl, ap, ◌∙◌, inl, inr, Bool, true, false, some, List, [], ◌∷◌, ◌++◌,
  arith, Outcome, done, panic, ok, length, length-append, get_elem?, get_elem?-set_self,
  get_elem?-set_ne, ◌≢◌, get_elem?-append_last, ltb, if◌then◌else◌, bind_done, Bool-cases,
}
use data_loom.Schema.{Fields}
use data_loom.Runtime.{Runtime, Channel, make_channel, context_done, context_error, pick, pick_of}
use data_loom.Storage.{Stored, on_runtime}
use data_loom.Storage.Queue.{
  DbWriteRequest, Queued, queue_capacity, refuse, enqueue, has_room, nil_database, closed_text,
  full_text, start_writer, writer_step, write_request,
}
use data_loom.Storage.Writing.{with_channel, sent, ended, send_lem, close_lem}
use data_loom.Storage.Badger
use data_loom.Storage.Badger.{Badger, BadgerStorage}
use data_loom.Storage.Sqlite
use data_loom.Storage.Sqlite.{Sqlite, SqliteStorage, new_sqlite_storage}

abbrev fresh_channel : Channel
fresh_channel = record { capacity = 1; buffer = []; closed = false }

module _ {D : Type 0} where
  -- The storage with AsyncPut's new channel.
  abbrev pub opened_channel : Stored (Queued D) → Stored (Queued D)
  opened_channel s = record s {
    runtime = record s.runtime { channels = s.runtime.channels ++ fresh_channel ∷ [] };
  }

  -- A refusal returns and leaves the queue and the other channels alone.
  pub refuse_lem :
      (text : String) (s : Stored (Queued D)) (c : ℕ)
      → get_elem? s.runtime.channels c ≡ some fresh_channel
      → (rt : Runtime) × (refuse c text s ≡ done tt (record s { runtime = rt }))
        × ((j : ℕ) → c ≢ j → get_elem? rt.channels j ≡ get_elem? s.runtime.channels j)
  unfolding refuse
  refuse_lem text s c there =
      let ch1 = sent fresh_channel (some text) in
      let rt1 = with_channel c ch1 s.runtime in
      let at1 : get_elem? rt1.channels c ≡ some ch1 =
        get_elem?-set_self s.runtime.channels c ch1 fresh_channel there in
      (
        with_channel c (ended ch1) rt1,
        ground (
          arith,
          send_lem c (some text) s.runtime fresh_channel there refl (omega arith),
          close_lem c rt1 ch1 at1 refl,
        ),
        λ j ne.
            get_elem?-set_ne rt1.channels c j (ended ch1) ne
            ∙ get_elem?-set_ne s.runtime.channels c j ch1 ne,
      )

  -- What AsyncPut promises.
  abbrev pub Bounded : Outcome (Stored (Queued D)) ℕ → Stored (Queued D) → Type 0
  Bounded o s =
      (s' : Stored (Queued D)) × (o ≡ done (length s.runtime.channels) s')
      × (length s'.db.write_queue ≤ queue_capacity)
      × (s'.db.database ≡ s.db.database)
      × ((s.db.closed ≡ true) → s'.db ≡ s.db)

module _ {D : Type 0} (sqlite : Sqlite D) where
  -- From a queue within its capacity, Sqlite's AsyncPut returns a new channel and never waits; the
  -- queue stays within its capacity, the database is as before, and a closed storage is left as it
  -- was.
  pub async_put_sqlite :
      (ctx : ℕ) (key : String) (value : Fields) (now : ℕ) (s : Stored (SqliteStorage D))
      → length s.db.write_queue ≤ queue_capacity
      → Bounded (Sqlite.async_put sqlite ctx key value now s) s
  unfolding Sqlite.async_put make_channel has_room enqueue
  async_put_sqlite ctx key value now s low =
      let c = length s.runtime.channels in
      let s1 = opened_channel s in
      let there = get_elem?-append_last s.runtime.channels fresh_channel in
      let (rt_closed, e_closed, closed_frame) = refuse_lem closed_text s1 c there in
      let (rt_full, e_full, full_frame) = refuse_lem full_text s1 c there in
      elim (Bool-cases s.db.closed) [
        | inl shut ↦
            (record s { runtime = rt_closed }, ground (arith, shut, e_closed), low, refl, λ h. refl)
        | inr live ↦ elim (Bool-cases (ltb (length s.db.write_queue) queue_capacity)) [
          | inl room ↦
              let request : DbWriteRequest = record {
                key = key;
                value = value;
                err_ch = c;
                write_ctx = ctx;
                timestamp = now;
              } in
              (
                record s1 { db = record s.db { write_queue = s.db.write_queue ++ request ∷ [] } },
                ground (arith, live, room),
                (let lt : length s.db.write_queue < queue_capacity = ground arith in
                    omega (arith, lt, length-append s.db.write_queue (request ∷ []))),
                refl,
                λ h. absurd (ground (arith, h, live)),
              )
          | inr full ↦ (
            record s { runtime = rt_full },
            ground (arith, live, full, e_full),
            low,
            refl,
            λ h. refl,
          )
        ]
      ]

  -- Where the database opens and its table is made, Sqlite's Open on a new storage returns without
  -- an error and starts the writer, but the storage's own database stays nil: Get and Delete panic
  -- on it, and so does the writer, at the first request whose context is not done.
  pub open_leaves_nil :
      (path key : String) (ctx : ℕ) (db db' : D)
      → sqlite.open_db path ≡ ok db
      → sqlite.create_table db ≡ ok db'
      → (s : SqliteStorage D) × (Sqlite.open_storage sqlite path new_sqlite_storage
          ≡ done (ok tt) s)
        × (s.running ≡ true)
        × (Sqlite.get sqlite ctx key s ≡ panic nil_database s)
        × (Sqlite.delete sqlite ctx key s ≡ panic nil_database s)
        × ((request : DbWriteRequest) (rt : Runtime)
            → context_done request.write_ctx rt ≡ false
            → Sqlite.writer_round sqlite
                (record { db = record s { write_queue = request ∷ [] }; runtime = rt })
              ≡ panic nil_database (record { db = s; runtime = rt }))
  unfolding Sqlite.open_storage Sqlite.get Sqlite.delete Sqlite.writer_round new_sqlite_storage
      start_writer writer_step write_request
  open_leaves_nil path key ctx db db' e f = (
    record new_sqlite_storage { running = true },
    ground (arith, e, f),
    refl,
    refl,
    refl,
    λ request rt live. ground (arith, live),
  )

abbrev pub Picked : Outcome Runtime Bool → Runtime → Type 0
Picked o rt = (b : Bool) × (rt' : Runtime) × (o ≡ done b rt') × (rt'.channels ≡ rt.channels)

pick_of_lem : (ps : List Bool) (rt : Runtime) → Picked (pick_of ps rt) rt
pick_of_lem [] rt = (true, rt, refl, refl)
pick_of_lem (b ∷ rest) rt = (b, record rt { picks = rest }, refl, refl)

-- Of two ready cases one is taken, and no channel changes.
pub pick_lem : (rt : Runtime) → Picked (pick rt) rt
unfolding pick
pick_lem rt = pick_of_lem rt.picks rt

module _ {D : Type 0} (badger : Badger D) where
  -- What each way through the `select` leaves.
  abbrev Chosen : Outcome (Stored (BadgerStorage D)) (Unit {0}) → Stored (BadgerStorage D) → Type 0
  Chosen o s =
      (s' : Stored (BadgerStorage D)) × (o ≡ done tt s')
      × (length s'.db.write_queue ≤ queue_capacity)
      × (s'.db.database ≡ s.db.database)

  enqueue_lem :
      (request : DbWriteRequest) (s : Stored (BadgerStorage D))
      → length s.db.write_queue < queue_capacity
      → Chosen (enqueue request s) s
  unfolding enqueue
  enqueue_lem request s room =
      (_, refl, omega (arith, length-append s.db.write_queue (request ∷ []), room), refl)

  refused :
      (text : String) (c : ℕ) (s : Stored (BadgerStorage D))
      → get_elem? s.runtime.channels c ≡ some fresh_channel
      → length s.db.write_queue ≤ queue_capacity
      → Chosen (refuse c text s) s
  refused text c s there low =
      let (rt, e, frame) = refuse_lem text s c there in (record s { runtime = rt }, e, low, refl)

  choose_lem :
      (has_space over : Bool) (text : String) (request : DbWriteRequest)
      (s : Stored (BadgerStorage D))
      → get_elem? s.runtime.channels request.err_ch ≡ some fresh_channel
      → length s.db.write_queue ≤ queue_capacity
      → ((has_space ≡ true) → length s.db.write_queue < queue_capacity)
      → Chosen (Badger.choose badger has_space over text request s) s
  choose_lem true false text request s there low room = enqueue_lem request s (room refl)
  choose_lem false true text request s there low room = refused text request.err_ch s there low
  choose_lem false false text request s there low room =
      refused full_text request.err_ch s there low
  choose_lem true true text request s there low room =
      let (b, rt, e, same) = pick_lem s.runtime in
      let s1 = record s { runtime = rt } in
      let step =
        bind_done (on_runtime pick)
          (λ first. if first then enqueue request else refuse request.err_ch text) s s1 b
          (ground (arith, e)) in
      elim (Bool-cases b) [
        | inl first ↦
            let (s', f, l, d) = enqueue_lem request s1 (room refl) in (s', step ∙ rw first f, l, d)
        | inr second ↦
            let (s', f, l, d) =
              refused text request.err_ch s1 (ap (λ cs. get_elem? cs request.err_ch) same ∙ there)
                low in
            (s', step ∙ rw second f, l, d)
      ]

  -- From a queue within its capacity, Badger's AsyncPut returns a new channel and never waits,
  -- whatever the state of the context and of the storage; the queue stays within its capacity, the
  -- database is as before, and a closed storage is left as it was.
  pub async_put_badger :
      (ctx : ℕ) (key : String) (value : Fields) (now : ℕ) (s : Stored (BadgerStorage D))
      → length s.db.write_queue ≤ queue_capacity
      → Bounded (Badger.async_put badger ctx key value now s) s
  unfolding Badger.async_put make_channel has_room
  async_put_badger ctx key value now s low =
      let c = length s.runtime.channels in
      let s1 = opened_channel s in
      let there = get_elem?-append_last s.runtime.channels fresh_channel in
      elim (Bool-cases s.db.closed) [
        | inl shut ↦
            let (rt, e, frame) = refuse_lem closed_text s1 c there in
            (record s { runtime = rt }, ground (arith, shut, e), low, refl, λ h. refl)
        | inr live ↦
            let request : DbWriteRequest = record {
              key = key;
              value = value;
              err_ch = c;
              write_ctx = ctx;
              timestamp = 0;
            } in
            let (s', e, l, d) =
              choose_lem (has_room s1.db) (context_done ctx s1.runtime)
                (context_error ctx s1.runtime) request s1 there low (λ h. ground arith) in
            (s', ground (arith, live, e), l, d, λ h. absurd (ground (arith, h, live)))
      ]
