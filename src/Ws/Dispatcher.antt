-- ===== src/Ws/Dispatcher.antt =====
-- internal/ws/dispatcher.go: from the bytes of a frame to the handler of its type.
use whisper_chat.Prelude.{
  ℕ, String, Bool, Option, none, some, if◌then◌else◌, ◌==◌, nat_eq, text_eq, list_eq,
}
use whisper_chat.Prelude.Dict.{Dict, lookup, insert}
use whisper_chat.Protocol.{Json, type_error, type_ping, type_pong}
use whisper_chat.Protocol.Messages.{ClientMessage, error, pong}
use whisper_chat.Protocol.Parse.{Parsed, parse_client_message}
use whisper_chat.Protocol.Server.{new_server_message}
use whisper_chat.Ws.Connections.{update}
use whisper_chat.Ws.Server.{Sockets, Server, write_message}

module _ (k : Sockets) (App : Type 0) where
  abbrev pub MessageHandler : Type 0
  MessageHandler = ℕ → ClientMessage → Server k App → Server k App

module _ (k : Sockets) {App : Type 0} where
  -- Register: a later handler takes the place of an earlier one.
  unfoldable pub register :
      String
      → MessageHandler k App
      → Dict String (MessageHandler k App)
      → Dict String (MessageHandler k App)
  register msg_type handler handlers = insert msg_type handler handlers

  unfoldable pub send_error : ℕ → String → String → Server k App → Server k App
  send_error ref code message s =
      (write_message k ref
        (new_server_message type_error (error (record { code = code; message = message }))) s).1

  unfoldable pub send_pong : ℕ → ℕ → Server k App → Server k App
  send_pong ref now s =
      let s' = record s { conns = update ref (λ c. record c { last_ping = now }) s.conns } in
      (write_message k ref (new_server_message type_pong pong) s').1

  -- Dispatch, once the message is parsed.
  unfoldable pub route :
      Dict String (MessageHandler k App) → ℕ → ℕ → Parsed → Server k App → Server k App
  route handlers now ref p s = elim p.msg [
    | none ↦ send_error ref "parse_error" "invalid message format" s
    | some msg ↦
        if p.type == type_ping then send_pong ref now s else elim (lookup p.type handlers) [
          | none ↦ send_error ref "unsupported_type" "unsupported message type" s
          | some handler ↦ handler ref msg s
        ]
  ]

  unfoldable pub dispatch :
      (String → String → Bool)
      → Dict String (MessageHandler k App)
      → ℕ
      → ℕ
      → Option Json
      → Server k App
      → Server k App
  unfolding route
  dispatch same_key handlers now ref value s =
      route handlers now ref (parse_client_message same_key value) s
