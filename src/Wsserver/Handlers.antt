-- ===== src/Wsserver/Handlers.antt =====
-- The handlers that cmd/wsserver/main.go registers, and the server that it builds from them.
use whisper_chat.Prelude.{ℕ, String, Bool, none, some, [], nat_eq, text_eq, list_eq}
use whisper_chat.Prelude.Dict.{Dict, lookup}
use whisper_chat.Protocol.{
  type_set_fingerprint, type_find_match, type_cancel_match, type_accept_match, type_decline_match,
  type_message, type_typing, type_end_chat, type_report,
}
use whisper_chat.Protocol.Messages.{ClientMessage}
use whisper_chat.Ws.Server.{ServerConfig}
use whisper_chat.Ws.Server.Frames.{Read, handle_conn}
use whisper_chat.Ws.Dispatcher.{MessageHandler, register, dispatch}
use whisper_chat.Wsserver.{Services, App, World}
use whisper_chat.Wsserver.Chatting.{handle_message, handle_typing, handle_end_chat}
use whisper_chat.Wsserver.Pairing.{
  handle_find_match, handle_cancel_match, handle_accept_match, handle_decline_match,
}
use whisper_chat.Wsserver.Abuse.{handle_set_fingerprint, handle_report}
use whisper_chat.Wsserver.Disconnect.{callbacks}

module _ {Data : Type 0} (w : Services Data) (now : ℕ) where
  -- A handler reads the connection's identifier: conn.ID.
  abbrev pub as_session :
      (String → ClientMessage → World w → World w) → MessageHandler w.sockets (App w)
  as_session handler ref m s = elim (lookup ref s.conns.heap) [
    | none ↦ s
    | some c ↦ handler c.id m s
  ]

  abbrev pub on_connection :
      (ℕ → String → ClientMessage → World w → World w) → MessageHandler w.sockets (App w)
  on_connection handler ref = as_session (handler ref) ref

  -- The calls of dispatcher.Register.
  unfoldable pub handlers : Dict String (MessageHandler w.sockets (App w))
  unfolding register
  handlers = register w.sockets type_report (as_session (handle_report w (callbacks w now))) (
      register w.sockets type_end_chat (as_session (handle_end_chat w now)) (
        register w.sockets type_typing (as_session (handle_typing w now)) (
          register w.sockets type_message (on_connection (handle_message w now)) (
            register w.sockets type_decline_match (as_session (handle_decline_match w now)) (
              register w.sockets type_accept_match (as_session (handle_accept_match w now)) (
                register w.sockets type_cancel_match
                  (as_session (λ sid m. handle_cancel_match w now sid))
                  (register w.sockets type_find_match (on_connection (handle_find_match w now)) (
                    register w.sockets type_set_fingerprint
                      (on_connection (handle_set_fingerprint w (callbacks w now))) []))))))))

  -- A frame from a client, from the socket to the handler.
  unfoldable pub serve : (String → String → Bool) → ServerConfig → ℕ → Read → World w → World w
  unfolding handlers
  serve same_key config fd =
      handle_conn w.sockets config (callbacks w now)
        (λ ref value. dispatch w.sockets same_key handlers now ref value) fd now
