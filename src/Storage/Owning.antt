-- ===== src/Storage/Owning.antt =====
-- Whose channel is whose: AsyncPut of server/internal/storage/badger.go.
use data_loom.Common.{
  ℕ, String, ◌≡◌, ◌≢◌, refl, ap, sym, ◌∙◌, inl, inr, Bool, true, false, some, List, [], ◌∷◌, ◌++◌,
  arith, Outcome, done, length, get_elem?, get_elem?-append_left, get_elem?-append_last,
  get_elem?-lt, if◌then◌else◌, bind_done, Bool-cases,
}
use data_loom.Schema.{Fields}
use data_loom.Runtime.{Runtime, make_channel, context_done, context_error, pick}
use data_loom.Storage.{Stored, on_runtime}
use data_loom.Storage.Queue.{DbWriteRequest, refuse, enqueue, has_room, closed_text, full_text}
use data_loom.Storage.RoundTrip.{fresh_channel}
use data_loom.Storage.Draining.{Apart, Unanswered, unanswered_lem}
use data_loom.Storage.Queueing.{opened_channel, refuse_lem, pick_lem}
use data_loom.Storage.Badger
use data_loom.Storage.Badger.{Badger, BadgerStorage}

-- A channel that is not made yet is nobody's.
pub next_lem :
    (rt : Runtime) (queue : List DbWriteRequest)
    → Unanswered rt queue
    → Apart (length rt.channels) queue
next_lem rt [] u = tt
next_lem rt (q ∷ rest) (fresh, own, u) = (
  λ e. omega (arith, e, get_elem?-lt rt.channels q.err_ch fresh_channel fresh),
  next_lem rt rest u,
)

pub opened_lem :
    (rt : Runtime) (queue : List DbWriteRequest)
    → Unanswered rt queue
    → Unanswered (record rt { channels = rt.channels ++ fresh_channel ∷ [] }) queue
opened_lem rt [] u = tt
opened_lem rt (q ∷ rest) (fresh, own, u) = (
  get_elem?-append_left rt.channels (fresh_channel ∷ []) q.err_ch fresh_channel fresh,
  own,
  opened_lem rt rest u,
)

repicked_lem :
    (rt rt' : Runtime) (queue : List DbWriteRequest)
    → rt'.channels ≡ rt.channels
    → Unanswered rt queue
    → Unanswered rt' queue
repicked_lem rt rt' [] same u = tt
repicked_lem rt rt' (q ∷ rest) same (fresh, own, u) =
    (ap (λ cs. get_elem? cs q.err_ch) same ∙ fresh, own, repicked_lem rt rt' rest same u)

apart_lem :
    (c : ℕ) (queue : List DbWriteRequest) (r : DbWriteRequest)
    → c ≢ r.err_ch
    → Apart c queue
    → Apart c (queue ++ r ∷ [])
apart_lem c [] r ne own = (ne, tt)
apart_lem c (q ∷ rest) r ne (h, own) = (h, apart_lem c rest r ne own)

pub enqueued_lem :
    (rt : Runtime) (queue : List DbWriteRequest) (r : DbWriteRequest)
    → get_elem? rt.channels r.err_ch ≡ some fresh_channel
    → Apart r.err_ch queue
    → Unanswered rt queue
    → Unanswered rt (queue ++ r ∷ [])
enqueued_lem rt [] r there apart u = (there, tt, tt)
enqueued_lem rt (q ∷ rest) r there (ne, apart) (fresh, own, u) =
    (fresh, apart_lem q.err_ch rest r (λ e. ne (sym e)) own, enqueued_lem rt rest r there apart u)

module _ {D : Type 0} (badger : Badger D) where
  abbrev Owned : Outcome (Stored (BadgerStorage D)) (Unit {0}) → Type 0
  Owned o =
      (s' : Stored (BadgerStorage D)) × (o ≡ done tt s') × Unanswered s'.runtime s'.db.write_queue

  module _ (request : DbWriteRequest) (s : Stored (BadgerStorage D))
      (there : get_elem? s.runtime.channels request.err_ch ≡ some fresh_channel)
      (own : Apart request.err_ch s.db.write_queue)
      (u : Unanswered s.runtime s.db.write_queue) where
    refused_lem : (text : String) → Owned (refuse request.err_ch text s)
    refused_lem text =
        let (rt, e, frame) = refuse_lem text s request.err_ch there in
        (
          record s { runtime = rt },
          e,
          unanswered_lem s.runtime rt request.err_ch s.db.write_queue own frame u,
        )

    accepted_lem : Owned (enqueue request s)
    unfolding enqueue
    accepted_lem = (_, refl, enqueued_lem s.runtime s.db.write_queue request there own u)

  chosen_lem :
      (has_space over : Bool) (text : String) (request : DbWriteRequest)
      (s : Stored (BadgerStorage D))
      → get_elem? s.runtime.channels request.err_ch ≡ some fresh_channel
      → Apart request.err_ch s.db.write_queue
      → Unanswered s.runtime s.db.write_queue
      → Owned (Badger.choose badger has_space over text request s)
  chosen_lem true false text request s there own u = accepted_lem request s there own u
  chosen_lem false true text request s there own u = refused_lem request s there own u text
  chosen_lem false false text request s there own u = refused_lem request s there own u full_text
  chosen_lem true true text request s there own u =
      let (b, rt, e, same) = pick_lem s.runtime in
      let s1 = record s { runtime = rt } in
      let step =
        bind_done (on_runtime pick)
          (λ first. if first then enqueue request else refuse request.err_ch text) s s1 b
          (ground (arith, e)) in
      let there1 = ap (λ cs. get_elem? cs request.err_ch) same ∙ there in
      let u1 = repicked_lem s.runtime rt s.db.write_queue same u in
      elim (Bool-cases b) [
        | inl first ↦
            let (s', f, v) = accepted_lem request s1 there1 own u1 in (s', step ∙ rw first f, v)
        | inr second ↦
            let (s', f, v) = refused_lem request s1 there1 own u1 text in
            (s', step ∙ rw second f, v)
      ]

  -- Where each queued request has an open, empty channel of its own, Badger's AsyncPut returns and
  -- leaves it so, whatever the state of the context, of the queue and of the storage.
  pub async_put-Unanswered :
      (ctx : ℕ) (key : String) (value : Fields) (now : ℕ) (s : Stored (BadgerStorage D))
      → Unanswered s.runtime s.db.write_queue
      → (s' : Stored (BadgerStorage D)) × (Badger.async_put badger ctx key value now s
          ≡ done (length s.runtime.channels) s')
        × Unanswered s'.runtime s'.db.write_queue
  unfolding Badger.async_put make_channel
  async_put-Unanswered ctx key value now s u =
      let c = length s.runtime.channels in
      let s1 = opened_channel s in
      let there = get_elem?-append_last s.runtime.channels fresh_channel in
      let u1 = opened_lem s.runtime s.db.write_queue u in
      let own = next_lem s.runtime s.db.write_queue u in
      let request : DbWriteRequest = record {
        key = key;
        value = value;
        err_ch = c;
        write_ctx = ctx;
        timestamp = 0;
      } in
      elim (Bool-cases s.db.closed) [
        | inl shut ↦
            let (s', e, v) = refused_lem request s1 there own u1 closed_text in
            (s', ground (arith, shut, e), v)
        | inr live ↦
            let (s', e, v) =
              chosen_lem (has_room s1.db) (context_done ctx s1.runtime)
                (context_error ctx s1.runtime) request s1 there own u1 in
            (s', ground (arith, live, e), v)
      ]
