-- ===== src/Storage/Ordering.antt =====
-- Several values that are put before the writer of server/internal/storage/badger.go comes to them.
use data_loom.Common.{
  ℕ, suc, ◌+◌, ◌≤◌, String, ◌≡◌, refl, ap, sym, ◌∙◌, Bool, true, false, some, List, [], ◌∷◌, ◌++◌,
  subst, arith, Go, done, Result, length, length-append, get_elem?-append_last, ltb, bind_done,
  pure, ◌>>=◌, ◌>>◌,
}
use mathlib.Core.List.{append-nil, append_assoc}
use data_loom.Schema.{Fields, obj}
use data_loom.Network.{RawMessage, encoded}
use data_loom.Runtime.{Runtime, make_channel, context_done}
use data_loom.Storage.{Stored}
use data_loom.Storage.Queue.{DbWriteRequest, enqueue, has_room, queue_capacity, writer_rounds}
use data_loom.Storage.RoundTrip.{fresh_channel, idle}
use data_loom.Storage.Draining.{Unanswered, stored_by, Answered, rounds_lem}
use data_loom.Storage.Owning.{next_lem, opened_lem, enqueued_lem}
use data_loom.Storage.Badger
use data_loom.Storage.Badger.{Badger, BadgerStorage}

-- The context, the key and the value of a call.
abbrev pub Call : Type 0
Call = ℕ × String × Fields

-- No call's context is done.
abbrev pub AllLive : Runtime → List Call → Type 0
AllLive rt [] = Unit
AllLive rt ((ctx, key, value) ∷ rest) = (context_done ctx rt ≡ false) × AllLive rt rest

-- The calls' requests, where the first one's channel is the n-th.
abbrev pub requests_of : ℕ → List Call → List DbWriteRequest
requests_of n [] = []
requests_of n ((ctx, key, value) ∷ rest) =
    record { key = key; value = value; err_ch = n; write_ctx = ctx; timestamp = 0 }
    ∷ requests_of (suc n) rest

length-requests_of : (n : ℕ) (calls : List Call) → length (requests_of n calls) ≡ length calls
length-requests_of n [] = refl
length-requests_of n (call ∷ rest) = ap suc (length-requests_of (suc n) rest)

live_lem :
    (rt rt' : Runtime) (calls : List Call)
    → rt'.contexts ≡ rt.contexts
    → AllLive rt calls
    → AllLive rt' calls
unfolding context_done
live_lem rt rt' [] same live = tt
live_lem rt rt' (call ∷ rest) same (now, live) =
    (ground (arith, same, now), live_lem rt rt' rest same live)

module _ {D : Type 0} (badger : Badger D) where
  -- AsyncPut, call after call.
  abbrev pub async_puts : ℕ → List Call → Go (Stored (BadgerStorage D)) (Unit {0})
  async_puts now [] = pure tt
  async_puts now ((ctx, key, value) ∷ rest) = do
    ch ← Badger.async_put badger ctx key value now
    async_puts now rest

  abbrev taken : DbWriteRequest → Stored (BadgerStorage D) → Stored (BadgerStorage D)
  taken request s = record s {
    db = record s.db { write_queue = s.db.write_queue ++ request ∷ [] };
    runtime = record s.runtime { channels = s.runtime.channels ++ fresh_channel ∷ [] };
  }

  taken_lem :
      (ctx : ℕ) (key : String) (value : Fields) (now : ℕ) (s : Stored (BadgerStorage D))
      → s.db.closed ≡ false
      → ltb (length s.db.write_queue) queue_capacity ≡ true
      → context_done ctx s.runtime ≡ false
      → Badger.async_put badger ctx key value now s
        ≡ done (length s.runtime.channels) (
            taken
              (record {
                key = key;
                value = value;
                err_ch = length s.runtime.channels;
                write_ctx = ctx;
                timestamp = 0;
              })
              s)
  unfolding Badger.async_put make_channel has_room enqueue context_done
  taken_lem ctx key value now s live room wanted = ground (arith, live, room, wanted)

  puts_lem :
      (now : ℕ) (calls : List Call) (s : Stored (BadgerStorage D))
      → s.db.closed ≡ false
      → length s.db.write_queue + length calls ≤ queue_capacity
      → AllLive s.runtime calls
      → Unanswered s.runtime s.db.write_queue
      → (rt' : Runtime) × (async_puts now calls s
          ≡ done tt (record s {
            db = record s.db {
              write_queue = s.db.write_queue ++ requests_of (length s.runtime.channels) calls;
            };
            runtime = rt';
          }))
        × (rt'.contexts ≡ s.runtime.contexts)
        × (rt'.expired ≡ s.runtime.expired)
        × Unanswered rt' (s.db.write_queue ++ requests_of (length s.runtime.channels) calls)
  puts_lem now [] s open' room live u = (
    s.runtime,
    ap (λ q. done tt (record s { db = record s.db { write_queue = q } }))
        (sym (append-nil s.db.write_queue)),
    refl,
    refl,
    subst (Unanswered s.runtime) (sym (append-nil s.db.write_queue)) u,
  )
  puts_lem now ((ctx, key, value) ∷ rest) s open' room (wanted, live) u =
      let n = length s.runtime.channels in
      let r : DbWriteRequest = record {
        key = key;
        value = value;
        err_ch = n;
        write_ctx = ctx;
        timestamp = 0;
      } in
      let s1 = taken r s in
      let space : ltb (length s.db.write_queue) queue_capacity ≡ true = ground (arith, room) in
      let u1 =
        enqueued_lem s1.runtime s.db.write_queue r
          (get_elem?-append_last s.runtime.channels fresh_channel)
          (next_lem s.runtime s.db.write_queue u) (opened_lem s.runtime s.db.write_queue u) in
      let (rt', e, contexts, ends, v) =
        puts_lem now rest s1 open' (omega (arith, room, length-append s.db.write_queue (r ∷ [])))
          (live_lem s.runtime s1.runtime rest refl live) u1 in
      let same : s1.db.write_queue ++ requests_of (length s1.runtime.channels) rest
          ≡ s.db.write_queue ++ requests_of n ((ctx, key, value) ∷ rest) =
        append_assoc s.db.write_queue (r ∷ []) (requests_of (length s1.runtime.channels) rest)
        ∙ ap (λ m. s.db.write_queue ++ r ∷ requests_of m rest)
            (omega (arith, length-append s.runtime.channels (fresh_channel ∷ []))) in
      (
        rt',
        bind_done (Badger.async_put badger ctx key value now) (λ ch. async_puts now rest) s s1 n
              (taken_lem ctx key value now s open' space wanted)
            ∙ e
            ∙ ap (λ q. done tt (record s { db = record s.db { write_queue = q }; runtime = rt' }))
                same,
        contexts,
        ends,
        subst (Unanswered rt') same v,
      )

  module _ (result : String → RawMessage → D → Result (Unit {0}))
      (after : String → RawMessage → D → D)
      (returns : (key : String) (raw : RawMessage) (d : D)
        → badger.set_key key raw d ≡ done (result key raw d) (after key raw d)) where
    -- The values written one after the other.
    abbrev pub each_set : List Call → D → D
    each_set [] d = d
    each_set ((ctx, key, value) ∷ rest) d = each_set rest (after key (encoded (obj value)) d)

    abbrev pub set_result : DbWriteRequest → D → Result (Unit {0})
    set_result q d = result q.key (encoded (obj q.value)) d

    abbrev pub set_after : DbWriteRequest → D → D
    set_after q d = after q.key (encoded (obj q.value)) d

    stored_by-eq-each_set :
        (rt : Runtime) (n : ℕ) (calls : List Call) (d : D)
        → AllLive rt calls
        → stored_by set_result set_after rt (requests_of n calls) d ≡ each_set calls d
    stored_by-eq-each_set rt n [] d live = refl
    stored_by-eq-each_set rt n ((ctx, key, value) ∷ rest) d (now, live) =
        rw (now, stored_by)
          (stored_by-eq-each_set rt (suc n) rest (after key (encoded (obj value)) d) live)

    put_lem :
        (q : DbWriteRequest) (d : D)
        → Badger.put badger q (some d) ≡ done (set_result q d) (some (set_after q d))
    unfolding Badger.put
    put_lem q d = ground (arith, returns q.key (encoded (obj q.value)) d)

    -- With an opened Badger storage with nothing queued, calls of AsyncPut that are no more than
    -- the queue's capacity and whose contexts are not done, and a database whose writes all return:
    -- the calls return one after the other, and as many rounds of the writer return too. They leave
    -- an empty queue, and a database in which the values' JSON was set in the order of the calls.
    -- Each call's channel has the result of its own write, and is closed.
    pub puts_are_written :
        (rt : Runtime) (running : Bool) (now : ℕ) (calls : List Call) (d : D)
        → length calls ≤ queue_capacity
        → AllLive rt calls
        → (rt' : Runtime) × ((do
          async_puts now calls
          writer_rounds (Badger.put badger) (length calls))
              (idle rt running d)
            ≡ done tt (record (idle rt running (each_set calls d)) { runtime = rt' }))
          × Answered set_result set_after rt rt' (requests_of (length rt.channels) calls) d
    puts_are_written rt running now calls d room live =
        let queue = requests_of (length rt.channels) calls in
        let (rt1, e, contexts, ends, u) =
          puts_lem now calls (idle rt running d) refl (omega (arith, room)) live tt in
        let (rt2, f, answered, frame) =
          rounds_lem (Badger.put badger) false running set_result set_after put_lem rt queue d rt1
            contexts ends u in
        let rounds =
          ap
            (λ n. writer_rounds (Badger.put badger) n (record (idle rt1 running d) {
              db = record {
                database = some d;
                write_queue = queue;
                closed = false;
                running = running;
              };
            }))
            (sym (length-requests_of (length rt.channels) calls)) in
        let kept =
          ap (λ d'. done tt (record (idle rt running d') { runtime = rt2 }))
            (stored_by-eq-each_set rt (length rt.channels) calls d live) in
        (
          rt2,
          bind_done (async_puts now calls) (λ u. writer_rounds (Badger.put badger) (length calls))
                (idle rt running d) _ tt e
              ∙ rounds
              ∙ f
              ∙ kept,
          answered,
        )
