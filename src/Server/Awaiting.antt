-- ===== src/Server/Awaiting.antt =====
-- The goroutine of publishHandler (server/internal/server/handlers.go) once its context is done.
use data_loom.Common.{
  ℕ, ◌≤◌, String, ◌≡◌, refl, ap, ◌∙◌, true, false, Option, none, some, List, [], ◌∷◌, ◌++◌, arith,
  length, done, get_elem?, set, if◌then◌else◌, pure, bind_done, Bool-cases, inl, inr,
}
use data_loom.Network.{
  Client, WebSocketMessage, Write, WriteJson, Net, written, Outbound, response, new_response, nil,
}
use data_loom.Runtime.{Runtime, Channel, pick, context_done}
use data_loom.Storage.Queueing.{pick_lem}
use data_loom.Server.{Server, ack_response_database_error}
use data_loom.Server.Sending.{send_succeeds}
use data_loom.Server.Answers.{Answers, environs, wrote, wrote-nil}
use data_loom.Server.Waiting.{
  ready, Selected, got, other, take_received, select_of, select_receive, tell, await_step,
}

-- The report of an error of the storage.
abbrev pub storage_report : WebSocketMessage → String → Outbound
storage_report msg text = response (
    new_response
      (record {
        message_id = msg.message_id;
        sender_id = "";
        action = "persist";
        topic = "";
        raw_data = none;
        require_ack = false;
        parsed_data = none;
      })
      500 text nil)

-- Where the second case is ready, the `select` does not wait, and takes that case if the first is not.
select_of_ends :
    (c : ℕ) (o : Option (Option String × Channel)) (rt : Runtime)
    → (sel : Selected) × (rt' : Runtime) × (select_of c true o rt ≡ done sel rt')
      × ((o ≡ none) → sel ≡ other)
select_of_ends c none rt = (other, rt, refl, λ e. refl)
select_of_ends c (some x) rt =
    let (b, rt1, e, same) = pick_lem rt in
    let step =
      bind_done pick (λ first. if first then take_received c x else pure other) rt rt1 b e in
    elim (Bool-cases b) [
      | inl first ↦
          (got x.0, record rt1 { channels = set rt1.channels c x.1 }, step ∙ rw first refl, λ h. cc)
      | inr second ↦ (other, rt1, step ∙ rw second refl, λ h. refl)
    ]

module _ (wj : WriteJson) (c : Client) (msg : WebSocketMessage) where
  -- The report that a case of the `select` leads to.
  abbrev pub told : Selected → Net → List Write
  told (got none) net = []
  told (got (some e)) net = written wj c (storage_report msg e) net ∷ []
  told other net = written wj c (storage_report msg "timeout when persisting") net ∷ []

  told_at_most_once : (sel : Selected) (net : Net) → length (told sel net) ≤ 1
  told_at_most_once (got none) net = omega arith
  told_at_most_once (got (some e)) net = omega arith
  told_at_most_once other net = omega arith

module _ {S : Type 0} (wj : WriteJson) (n : ℕ) (quiet : Answers wj) (c : Client)
    (msg : WebSocketMessage) where
  pub tell_lem :
      (sel : Selected) (s : Server S)
      → tell (environs wj n) c msg sel s ≡ done tt (wrote (told wj c msg sel s.world.net) s)
  unfolding ack_response_database_error
  tell_lem (got none) s = ap (done tt) (wrote-nil s)
  tell_lem (got (some e)) s = send_succeeds wj n c _ s (quiet _ c _)
  tell_lem other s = send_succeeds wj n c _ s (quiet _ c _)

  -- Where the context is done and responses are written without an error, the goroutine that a
  -- publish leaves running ends without waiting, with at most one write: if nothing can be received
  -- from its channel by then, it is the report of a timeout, whatever becomes of the value. The
  -- topic manager is as before.
  pub await_step_ends :
      (err_ch ctx : ℕ) (s : Server S)
      → context_done ctx s.world.runtime ≡ true
      → (s' : Server S) × (ws : List Write) × (await_step (environs wj n) c msg err_ch ctx s
          ≡ done tt s')
        × (s'.world.net ≡ s.world.net ++ ws)
        × (length ws ≤ 1)
        × ((ready (get_elem? s.world.runtime.channels err_ch) ≡ none)
            → ws ≡ written wj c (storage_report msg "timeout when persisting") s.world.net ∷ [])
        × (s'.world.tm ≡ s.world.tm)
  unfolding await_step select_receive
  await_step_ends err_ch ctx s over =
      let (sel, rt, e, alone) =
        select_of_ends err_ch (ready (get_elem? s.world.runtime.channels err_ch)) s.world.runtime in
      let s1 = record s { world = record s.world { runtime = rt } } in
      (
        wrote (told wj c msg sel s.world.net) s1,
        told wj c msg sel s.world.net,
        ground (arith, over, e, tell_lem sel s1),
        refl,
        told_at_most_once wj c msg sel s.world.net,
        λ h. ap (λ x. told wj c msg x s.world.net) (alone h),
        refl,
      )
