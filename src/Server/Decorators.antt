-- ===== src/Server/Decorators.antt =====
-- server/internal/server/decorators.go: what is wrapped round the handlers.
use data_loom.Common.{Option, none, some, Go, Result, ok, err, if◌then◌else◌}
use data_loom.Common.Text.{trim_space, is_empty}
use data_loom.Schema.{Fields}
use data_loom.Network.{Client, WebSocketMessage, RawMessage, empty, unmarshal}
use data_loom.Server.{Server, Environs, ack_response_bad_request}
use data_loom.Server.Handlers.{HandlerFunc}

unfoldable pub parse_json : RawMessage → Result (Option Fields)
unfolding unmarshal
parse_json data_text = unmarshal data_text

module _ {S : Type 0} (env : Environs) where
  unfoldable pub inject_sender_id_decorator : HandlerFunc S → HandlerFunc S
  inject_sender_id_decorator next c msg = next c (record msg { sender_id = c.id })

  unfoldable pub require_topic_decorator : HandlerFunc S → HandlerFunc S
  unfolding ack_response_bad_request
  require_topic_decorator next c msg =
      if is_empty (trim_space msg.topic)
      then ack_response_bad_request env c msg "no topic provided"
      else next c msg

  abbrev pub with_payload :
      HandlerFunc S → Client → WebSocketMessage → Result (Option Fields) → Go (Server S) (Unit {0})
  with_payload next c msg (err e) = ack_response_bad_request env c msg e
  with_payload next c msg (ok payload) = next c (record msg { parsed_data = payload })

  abbrev pub check_data :
      HandlerFunc S → Client → WebSocketMessage → Option RawMessage → Go (Server S) (Unit {0})
  check_data next c msg none = ack_response_bad_request env c msg "message data was null"
  check_data next c msg (some empty) = ack_response_bad_request env c msg "message data was empty"
  check_data next c msg (some raw) = with_payload next c msg (parse_json raw)

  unfoldable pub require_data_decorator : HandlerFunc S → HandlerFunc S
  unfolding ack_response_bad_request
  require_data_decorator next c msg = check_data next c msg msg.raw_data

  -- It logs before and after.
  unfoldable pub metrics_decorator : HandlerFunc S → HandlerFunc S
  metrics_decorator next c msg = next c msg
