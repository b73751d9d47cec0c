-- ===== src/Wsserver/Disconnect.antt =====
-- What cmd/wsserver/main.go does when a user is gone: the callback of SetOnDisconnect, and with it what
-- the connections' server calls.
use whisper_chat.Prelude.{
  ℕ, String, Bool, Option, some, if◌then◌else◌, ◌==◌, nat_eq, text_eq, list_eq,
}
use whisper_chat.Redis.Client.{Result, ok}
use whisper_chat.Chat.Store.{ChatSession}
use whisper_chat.Session.{Session, status_matching}
use whisper_chat.Messaging.Client.{
  Client, publish_match_cancel, publish_chat_message, unsubscribe_match_found,
  unsubscribe_match_notify, unsubscribe_from_chat, unsubscribe_moderation_result,
}
use whisper_chat.Ws.Server.{Callbacks}
use whisper_chat.Wsserver.{Services, App}
use whisper_chat.Wsserver.Chatting.{partner_left_event, in_chat}
use whisper_chat.Chat.Store
use whisper_chat.Chat.Buffer
use whisper_chat.Session

module _ {Data : Type 0} (w : Services Data) (now : ℕ) where
  abbrev pub on_nats : (Client w.nats → Bool × Client w.nats) → App w → App w
  on_nats call a = record a { nats = (call a.nats).1 }

  unfoldable pub leave_queue : String → App w → App w
  leave_queue id a = on_nats (unsubscribe_match_notify w.nats id) (
      on_nats (unsubscribe_match_found w.nats id) (
        on_nats
          (publish_match_cancel w.nats
            (w.codec.cancel_requests.marshal (record { session_id = id })))
          a))

  unfoldable pub leave_chat : String → String → App w → App w
  leave_chat id chat_id a =
      let (found, rdb) = Store.get w.redis chat_id a.rdb in
      let a1 = record a { rdb = rdb } in
      let a2 =
        on_nats
          (publish_chat_message w.nats chat_id
            (w.codec.chat_events.marshal (partner_left_event w now id)))
          a1 in
      let a3 =
        on_nats (unsubscribe_moderation_result w.nats id)
          (on_nats (unsubscribe_from_chat w.nats id) a2) in
      let a4 = record a3 { rdb = (Store.delete w.redis chat_id a3.rdb).1 } in
      let a' = if in_chat w now id found then a4 else a1 in
      record a' { buffer = Buffer.remove chat_id a'.buffer }

  unfoldable pub clean_up : String → Result (Option Session) → App w → App w
  unfolding leave_queue leave_chat
  clean_up id (ok (some session)) a =
      let a' = if session.status == status_matching then leave_queue id a else a in
      if session.chat_id == "" then a' else leave_chat id session.chat_id a'
  clean_up id _ a = a

  unfoldable pub disconnected : String → App w → App w
  unfolding clean_up
  disconnected id a =
      let (found, rdb) = Session.get w.redis id a.rdb in clean_up id found (record a { rdb = rdb })

  -- What ws.NewServer and SetOnDisconnect are given. The server asks the session store itself to create
  -- and to delete a session.
  abbrev pub callbacks : Callbacks (App w)
  callbacks = record {
    on_disconnect = disconnected;
    create_session =
        λ id a. record a { rdb = (Session.create w.redis w.server_name now id a.rdb).1 };
    delete_session = λ id a. record a { rdb = (Session.delete w.redis id a.rdb).1 };
  }
