-- ===== src/Server/Waiting.antt =====
-- The goroutines that a publish leaves running: sendTopic's (topic_manager.go), from the storage's
-- channel to the handler's, and the handler's own (handlers.go), from that channel or the end of the
-- context to the client. Each is one step: it waits in one `select`, and then ends.
use data_loom.Common.{
  ℕ, String, ◌<>◌, Bool, true, false, Option, none, some, [], ◌∷◌, Go, done, parked, get_elem?, set,
  if◌then◌else◌, pure, ◌>>=◌, ◌>>◌,
}
use data_loom.Network.{Client, WebSocketMessage}
use data_loom.Runtime.{Runtime, Channel, send, close, pick, context_done}
use data_loom.Server.{Server, Environs, on_runtime, ack_response_database_error}

-- What a receive finds, if it does not wait, and the channel after it.
abbrev pub ready : Option Channel → Option (Option String × Channel)
ready none = none
ready (some ch) = elim (ch.buffer) [
  | [] ↦ if ch.closed then some (none, ch) else none
  | e ∷ rest ↦ some (e, record ch { buffer = rest })
]

-- Which case of the `select` was taken: the receive, or the other one.
pub data Selected : Type 0 where
  got : Option String → Selected
  other : Selected

abbrev pub take_received : ℕ → Option String × Channel → Go Runtime Selected
take_received c (e, ch) r = done (got e) (record r { channels = set r.channels c ch })

-- Two cases, of which the second one is ready or not.
abbrev pub select_of : ℕ → Bool → Option (Option String × Channel) → Go Runtime Selected
select_of c false none r = parked r
select_of c true none r = done other r
select_of c false (some x) r = take_received c x r
select_of c true (some x) r = (do first ← pick; if first then take_received c x else pure other) r

unfoldable pub select_receive : ℕ → Bool → Go Runtime Selected
unfolding pick
select_receive c second r = select_of c second (ready (get_elem? r.channels c)) r

abbrev pub forward_selected : ℕ → Selected → Go Runtime (Unit {0})
forward_selected to (got none) = pure tt
forward_selected to (got (some e)) = send to (some ("database error: " <> e))
forward_selected to other = send to (some "timeout waiting for database ack")

-- sendTopic's goroutine, with whether two seconds are over.
unfoldable pub forward_step : Bool → ℕ → ℕ → Go Runtime (Unit {0})
unfolding select_receive send close
forward_step over from to = do
  selected ← select_receive from over
  forward_selected to selected
  close to

module _ {S : Type 0} (env : Environs) where
  abbrev pub tell : Client → WebSocketMessage → Selected → Go (Server S) (Unit {0})
  tell c msg (got none) = pure tt
  tell c msg (got (some e)) = ack_response_database_error env c msg e
  tell c msg other = ack_response_database_error env c msg "timeout when persisting"

  -- The handler's goroutine.
  unfoldable pub await_step : Client → WebSocketMessage → ℕ → ℕ → Go (Server S) (Unit {0})
  unfolding select_receive ack_response_database_error
  await_step c msg err_ch ctx = do
    over ← on_runtime (λ r. done (context_done ctx r) r)
    selected ← on_runtime (select_receive err_ch over)
    tell c msg selected
