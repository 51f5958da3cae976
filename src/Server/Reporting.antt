-- ===== src/Server/Reporting.antt =====
-- How the end of a write reaches the publisher: sendTopic's goroutine (server/internal/topic/topic_manager.go)
-- passes it on, and publishHandler's goroutine (server/internal/server/handlers.go) tells the client.
use data_loom.Common.{
  ℕ, String, ◌<>◌, ◌≡◌, ◌≢◌, refl, ◌∙◌, true, false, Option, none, some, List, [], ◌∷◌, ◌++◌, arith,
  done, get_elem?, get_elem?-set_self, get_elem?-set_ne,
}
use data_loom.Network.{Client, WebSocketMessage, Write, WriteJson, Net, written}
use data_loom.Runtime.{Runtime, Channel, context_done}
use data_loom.Storage.Writing.{with_channel, sent, ended, send_lem, close_lem}
use data_loom.Server.{Server, on_runtime}
use data_loom.Server.Answers.{Answers, environs, wrote}
use data_loom.Server.Awaiting.{storage_report, told, tell_lem}
use data_loom.Server.Waiting.{got, select_receive, forward_step, await_step}

-- The writer's channel once the write has ended with `r`, and the handler's before anything came.
abbrev pub answered_channel : Option String → Channel
answered_channel r = record { capacity = 1; buffer = r ∷ []; closed = true }

abbrev pub empty_channel : Channel
empty_channel = record { capacity = 1; buffer = []; closed = false }

-- What the handler's channel has then.
abbrev passed_on : Option String → Channel
passed_on none = record empty_channel { closed = true }
passed_on (some e) = record {
  capacity = 1;
  buffer = some ("database error: " <> e) ∷ [];
  closed = true;
}

-- What the client is told.
abbrev pub told_of : WriteJson → Client → WebSocketMessage → Option String → Net → List Write
told_of wj c msg none net = []
told_of wj c msg (some e) net = written wj c (storage_report msg ("database error: " <> e)) net ∷ []

-- The channels once the first goroutine has ended.
forward_step_lem :
    (from to : ℕ) (r : Option String) (rt : Runtime)
    → from ≢ to
    → get_elem? rt.channels from ≡ some (answered_channel r)
    → get_elem? rt.channels to ≡ some empty_channel
    → (rt' : Runtime) × (forward_step false from to rt ≡ done tt rt')
      × (get_elem? rt'.channels to ≡ some (passed_on r))
      × (rt'.contexts ≡ rt.contexts)
unfolding forward_step select_receive
forward_step_lem from to none rt ne there open' =
    let rt1 = with_channel from (record (answered_channel none) { buffer = [] }) rt in
    let at1 : get_elem? rt1.channels to ≡ some empty_channel =
      get_elem?-set_ne rt.channels from to _ ne ∙ open' in
    (
      with_channel to (ended empty_channel) rt1,
      ground (arith, there, close_lem to rt1 empty_channel at1 refl),
      get_elem?-set_self rt1.channels to (ended empty_channel) empty_channel at1,
      refl,
    )
forward_step_lem from to (some e) rt ne there open' =
    let text = some ("database error: " <> e) in
    let rt1 = with_channel from (record (answered_channel (some e)) { buffer = [] }) rt in
    let at1 : get_elem? rt1.channels to ≡ some empty_channel =
      get_elem?-set_ne rt.channels from to _ ne ∙ open' in
    let rt2 = with_channel to (sent empty_channel text) rt1 in
    let at2 = get_elem?-set_self rt1.channels to (sent empty_channel text) empty_channel at1 in
    (
      with_channel to (ended (sent empty_channel text)) rt2,
      ground (
        arith,
        there,
        send_lem to text rt1 empty_channel at1 refl (omega arith),
        close_lem to rt2 (sent empty_channel text) at2 refl,
      ),
      get_elem?-set_self rt2.channels to (ended (sent empty_channel text)) (sent empty_channel text)
          at2,
      refl,
    )

module _ {S : Type 0} (wj : WriteJson) (n : ℕ) (quiet : Answers wj) (c : Client)
    (msg : WebSocketMessage) where
  await_step_lem :
      (to ctx : ℕ) (r : Option String) (s : Server S)
      → context_done ctx s.world.runtime ≡ false
      → get_elem? s.world.runtime.channels to ≡ some (passed_on r)
      → (s' : Server S) × (await_step (environs wj n) c msg to ctx s ≡ done tt s')
        × (s'.world.net ≡ s.world.net ++ told_of wj c msg r s.world.net)
        × (s'.world.tm ≡ s.world.tm)
  unfolding await_step select_receive
  await_step_lem to ctx none s live there =
      let s1 = record s {
        world = record s.world { runtime = with_channel to (passed_on none) s.world.runtime };
      } in
      (
        wrote (told wj c msg (got none) s.world.net) s1,
        ground (arith, live, there, tell_lem wj n quiet c msg (got none) s1),
        refl,
        refl,
      )
  await_step_lem to ctx (some e) s live there =
      let text = "database error: " <> e in
      let emptied = record (passed_on (some e)) { buffer = [] } in
      let s1 = record s {
        world = record s.world { runtime = with_channel to emptied s.world.runtime };
      } in
      (
        wrote (told wj c msg (got (some text)) s.world.net) s1,
        ground (arith, live, there, tell_lem wj n quiet c msg (got (some text)) s1),
        refl,
        refl,
      )

  -- Where the writer has answered and closed its channel, the handler's channel is empty and open,
  -- the two seconds and the handler's context are not over, and responses are written without an
  -- error: sendTopic's goroutine and then the handler's both return, and the client is told of an
  -- error of the storage, with code 500 and "database error: " before its text, and of nothing
  -- where the write succeeded. The topic manager is as before.
  pub write_result_reported :
      (from to ctx : ℕ) (r : Option String) (s : Server S)
      → from ≢ to
      → get_elem? s.world.runtime.channels from ≡ some (answered_channel r)
      → get_elem? s.world.runtime.channels to ≡ some empty_channel
      → context_done ctx s.world.runtime ≡ false
      → (s1 s2 : Server S) × (on_runtime (forward_step false from to) s ≡ done tt s1)
        × (await_step (environs wj n) c msg to ctx s1 ≡ done tt s2)
        × (s2.world.net ≡ s.world.net ++ told_of wj c msg r s.world.net)
        × (s2.world.tm ≡ s.world.tm)
  write_result_reported from to ctx r s ne there open' live =
      let (rt', e, at, contexts) = forward_step_lem from to r s.world.runtime ne there open' in
      let s1 = record s { world = record s.world { runtime = rt' } } in
      let live1 : context_done ctx rt' ≡ false =
        (unfold context_done in ground (arith, contexts, live)) in
      let (s2, f, net, tm) = await_step_lem to ctx r s1 live1 at in
      (s1, s2, ground (arith, e), f, net, tm)
