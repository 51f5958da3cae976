-- ===== src/Storage/Draining.antt =====
-- The writer of server/internal/storage/badger.go and sqlite.go over all that is queued.
use data_loom.Common.{
  String, ℕ, ◌≡◌, ◌≢◌, refl, sym, ◌∙◌, Bool, true, false, Option, some, List, [], ◌∷◌, arith, Go,
  done, parked, Result, length, get_elem?, get_elem?-set_self, get_elem?-set_ne, bind_done,
}
use data_loom.Runtime.{Runtime, Channel, context_done, context_error}
use data_loom.Storage.{Stored}
use data_loom.Storage.Queue.{
  DbWriteRequest, Queued, error_of, write_request, writer_step, writer_rounds,
}
use data_loom.Storage.RoundTrip.{fresh_channel}
use data_loom.Storage.Writing.{with_channel, sent, ended, send_lem, close_lem}

-- The channel is none of the requests'.
abbrev pub Apart : ℕ → List DbWriteRequest → Type 0
Apart c [] = Unit
Apart c (q ∷ rest) = (c ≢ q.err_ch) × Apart c rest

-- Each request has a channel of its own, which is open and empty.
abbrev pub Unanswered : Runtime → List DbWriteRequest → Type 0
Unanswered rt [] = Unit
Unanswered rt (q ∷ rest) =
    (get_elem? rt.channels q.err_ch ≡ some fresh_channel) × Apart q.err_ch rest × Unanswered rt rest

-- The channel of a request whose context is done, or not.
abbrev pub answer : Bool → String → Result (Unit {0}) → Channel
answer true text r = record fresh_channel { buffer = some text ∷ [] }
answer false text r = record { capacity = 1; buffer = error_of r ∷ []; closed = true }

-- A request's channel is answered without a change to the others.
pub unanswered_lem :
    (rt rt' : Runtime) (c : ℕ) (queue : List DbWriteRequest)
    → Apart c queue
    → ((j : ℕ) → c ≢ j → get_elem? rt'.channels j ≡ get_elem? rt.channels j)
    → Unanswered rt queue
    → Unanswered rt' queue
unanswered_lem rt rt' c [] apart same u = tt
unanswered_lem rt rt' c (q ∷ rest) (ne, apart) same (fresh, own, u) =
    (same q.err_ch ne ∙ fresh, own, unanswered_lem rt rt' c rest apart same u)

abbrev pub kept_or : {D : Type 0} → Bool → D → D → D
kept_or true d d' = d
kept_or false d d' = d'

module _ {D : Type 0} (result : DbWriteRequest → D → Result (Unit {0}))
    (after : DbWriteRequest → D → D) (rt0 : Runtime) where
  -- The database after the queue: the requests in order, less those whose context is done.
  abbrev pub stored_by : List DbWriteRequest → D → D
  stored_by [] d = d
  stored_by (q ∷ rest) d = stored_by rest (kept_or (context_done q.write_ctx rt0) d (after q d))

  -- Each request's channel holds what its turn came to.
  abbrev pub Answered : Runtime → List DbWriteRequest → D → Type 0
  Answered rt [] d = Unit
  Answered rt (q ∷ rest) d =
      (get_elem? rt.channels q.err_ch
        ≡ some (answer (context_done q.write_ctx rt0) (context_error q.write_ctx rt0) (result q d)))
      × Answered rt rest (kept_or (context_done q.write_ctx rt0) d (after q d))

module _ {D : Type 0} (put : DbWriteRequest → Go (Option D) (Result (Unit {0})))
    (closed running : Bool) where
  abbrev pub with_queue : Runtime → List DbWriteRequest → D → Stored (Queued (Option D))
  with_queue rt queue d = record {
    db = record { database = some d; write_queue = queue; closed = closed; running = running };
    runtime = rt;
  }

  -- What becomes of the loop once nothing is queued.
  abbrev pub Rests : Bool → Runtime → D → Type 0
  Rests true rt d =
      writer_step put (with_queue rt [] d)
      ≡ done tt (record (with_queue rt [] d) {
        db = record { database = some d; write_queue = []; closed = closed; running = false };
      })
  Rests false rt d = writer_step put (with_queue rt [] d) ≡ parked (with_queue rt [] d)

  rests_lem : (rt : Runtime) (d : D) (b : Bool) → closed ≡ b → Rests b rt d
  unfolding writer_step
  rests_lem rt d true e = ground (arith, e)
  rests_lem rt d false e = ground (arith, e)

  module _ (result : DbWriteRequest → D → Result (Unit {0})) (after : DbWriteRequest → D → D)
      (returns : (q : DbWriteRequest) (d : D)
        → put q (some d) ≡ done (result q d) (some (after q d))) where
    -- One round, with what it leaves alone.
    round_lem :
        (q : DbWriteRequest) (rest : List DbWriteRequest) (d : D) (rt : Runtime)
        → get_elem? rt.channels q.err_ch ≡ some fresh_channel
        → (over : Bool) → context_done q.write_ctx rt ≡ over
        → (rt' : Runtime) × (writer_step put (with_queue rt (q ∷ rest) d)
            ≡ done tt (with_queue rt' rest (kept_or over d (after q d))))
          × (get_elem? rt'.channels q.err_ch
              ≡ some (answer over (context_error q.write_ctx rt) (result q d)))
          × (rt'.contexts ≡ rt.contexts)
          × (rt'.expired ≡ rt.expired)
          × ((j : ℕ) → q.err_ch ≢ j → get_elem? rt'.channels j ≡ get_elem? rt.channels j)
    unfolding writer_step write_request
    round_lem q rest d rt there true over =
        let e = some (context_error q.write_ctx rt) in
        (
          with_channel q.err_ch (sent fresh_channel e) rt,
          ground (arith, over, send_lem q.err_ch e rt fresh_channel there refl (omega arith)),
          get_elem?-set_self rt.channels q.err_ch (sent fresh_channel e) fresh_channel there,
          refl,
          refl,
          λ j ne. get_elem?-set_ne rt.channels q.err_ch j (sent fresh_channel e) ne,
        )
    round_lem q rest d rt there false live =
        let ch1 = sent fresh_channel (error_of (result q d)) in
        let rt1 = with_channel q.err_ch ch1 rt in
        let at1 : get_elem? rt1.channels q.err_ch ≡ some ch1 =
          get_elem?-set_self rt.channels q.err_ch ch1 fresh_channel there in
        (
          with_channel q.err_ch (ended ch1) rt1,
          ground (
            arith,
            live,
            returns q d,
            send_lem q.err_ch (error_of (result q d)) rt fresh_channel there refl (omega arith),
            close_lem q.err_ch rt1 ch1 at1 refl,
          ),
          get_elem?-set_self rt1.channels q.err_ch (ended ch1) ch1 at1,
          refl,
          refl,
          λ j ne.
              get_elem?-set_ne rt1.channels q.err_ch j (ended ch1) ne
              ∙ get_elem?-set_ne rt.channels q.err_ch j ch1 ne,
        )

    pub rounds_lem :
        (rt0 : Runtime) (queue : List DbWriteRequest) (d : D) (rt : Runtime)
        → rt.contexts ≡ rt0.contexts
        → rt.expired ≡ rt0.expired
        → Unanswered rt queue
        → (rt' : Runtime) × (writer_rounds put (length queue) (with_queue rt queue d)
            ≡ done tt (with_queue rt' [] (stored_by result after rt0 queue d)))
          × Answered result after rt0 rt' queue d
          × ((j : ℕ) → Apart j queue → get_elem? rt'.channels j ≡ get_elem? rt.channels j)
    unfolding writer_rounds
    rounds_lem rt0 [] d rt same same_ends u = (rt, refl, tt, λ j a. refl)
    rounds_lem rt0 (q ∷ rest) d rt same same_ends (fresh, own, u) =
        let over = context_done q.write_ctx rt0 in
        let d1 = kept_or over d (after q d) in
        let (rt1, e, there, contexts, ends, frame) =
          round_lem q rest d rt fresh over (unfold context_done in ground (arith, same)) in
        let (rt2, f, answered, frame2) =
          rounds_lem rt0 rest d1 rt1 (contexts ∙ same) (ends ∙ same_ends)
            (unanswered_lem rt rt1 q.err_ch rest own frame u) in
        (
          rt2,
          bind_done (writer_step put) (λ u. writer_rounds put (length rest))
                (with_queue rt (q ∷ rest) d) (with_queue rt1 rest d1) tt e
              ∙ f,
          (
            frame2 q.err_ch own ∙ there ∙ (λ i. some (
                answer over (context_error q.write_ctx (record rt { expired = same_ends i }))
                  (result q d))),
            answered,
          ),
          λ j a. frame2 j a.1 ∙ frame j (λ h. a.0 (sym h)),
        )

    -- Where each queued request has an open, empty channel of its own and every put returns: as
    -- many rounds of the writer as there are requests return and leave nothing queued. The database
    -- has had the puts of the requests whose context is not done, in order, and each channel has
    -- its put's result, or the context's error. In the next round the writer ends if the queue is
    -- closed, and waits if not.
    pub writer_drains :
        (queue : List DbWriteRequest) (d : D) (rt : Runtime)
        → Unanswered rt queue
        → (rt' : Runtime) × (writer_rounds put (length queue) (with_queue rt queue d)
            ≡ done tt (with_queue rt' [] (stored_by result after rt queue d)))
          × Answered result after rt rt' queue d
          × Rests closed rt' (stored_by result after rt queue d)
    writer_drains queue d rt u =
        let (rt', e, answered, frame) = rounds_lem rt queue d rt refl refl u in
        (rt', e, answered, rests_lem rt' (stored_by result after rt queue d) closed refl)
