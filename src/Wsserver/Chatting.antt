-- ===== src/Wsserver/Chatting.antt =====
-- The handlers of cmd/wsserver/main.go that carry a chat: message, typing and end_chat. Times are the
-- seconds of the server's clock.
use whisper_chat.Prelude.{
  ℕ, String, Bool, false, ◌&&◌, Option, none, some, List, if◌then◌else◌, ◌==◌, nat_eq, text_eq,
  list_eq,
}
use whisper_chat.Redis.Client.{Result, ok}
use whisper_chat.Moderation.Patterns.{codes}
use whisper_chat.Moderation.Filter.{check}
use whisper_chat.Ratelimit.{rule_message, allow}
use whisper_chat.Chat.Event.{ChatEvent}
use whisper_chat.Chat.Utf8.Encode.{encode}
use whisper_chat.Chat.Validator.{
  InvalidMessage, empty, too_many_bytes, too_many_chars, invalid_utf8, validate_message,
}
use whisper_chat.Chat.Store.{ChatSession, is_participant, status_active}
use whisper_chat.Chat.Buffer.{BufferedMessage}
use whisper_chat.Session.{clear_chat_id}
use whisper_chat.Messaging.Client.{
  publish_chat_message, publish_moderation_request, unsubscribe_from_chat,
  unsubscribe_moderation_result,
}
use whisper_chat.Protocol.{type_error, type_rate_limited}
use whisper_chat.Protocol.Messages.{
  ClientMessage, message, typing, end_chat, ChatMsg, rate_limited, error,
}
use whisper_chat.Wsserver.{Services, World, with_redis, redis_call, nats_call, change_buffer, reply}
use whisper_chat.Chat.Store
use whisper_chat.Chat.Buffer

-- The texts of the errors of ValidateMessage.
abbrev pub error_text : InvalidMessage → String
error_text empty = "message text is empty"
error_text too_many_bytes = "message exceeds 4096 byte limit"
error_text too_many_chars = "message exceeds 2000 character limit"
error_text invalid_utf8 = "message contains invalid UTF-8"

-- A Go string's bytes.
abbrev pub bytes : String → List ℕ
bytes t = encode (codes t)

-- The chat was found, the session is in it, and it is active.
unfoldable pub may_send : String → Result (Option ChatSession) → Bool
may_send sid (ok (some cs)) = is_participant cs sid && cs.status == status_active
may_send sid _ = false

module _ {Data : Type 0} (w : Services Data) (now : ℕ) where
  abbrev pub message_event : String → String → ChatEvent
  message_event sid text = record {
    type = "message";
    from = sid;
    text = text;
    is_typing = false;
    ts = now;
  }

  -- The message handler once the message may be sent.
  unfoldable pub send_on : String → ChatMsg → World w → World w
  send_on sid m s =
      let s1 =
        nats_call
          (publish_chat_message w.nats m.chat_id
            (w.codec.chat_events.marshal (message_event sid m.text)))
          s in
      let s2 =
        change_buffer
          (Buffer.add m.chat_id (record { sender = sid; text = bytes m.text; ts = now })) s1 in
      nats_call
        (publish_moderation_request w.nats (
          w.codec.moderation_requests.marshal
            (record { session_id = sid; chat_id = m.chat_id; text = m.text; ts = now })))
        s2

  unfoldable pub check_chat : ℕ → String → ChatMsg → World w → World w
  check_chat ref sid m s =
      let (found, s') = with_redis (Store.get w.redis m.chat_id) s in
      if may_send sid found
      then send_on sid m s'
      else reply ref type_error
          (error (record { code = "invalid_chat"; message = "not in an active chat" })) s'

  unfoldable pub check_content : ℕ → String → ChatMsg → World w → World w
  unfolding check_chat
  check_content ref sid m s = elim (validate_message (bytes m.text)) [
    | some e ↦
        reply ref type_error (error (record { code = "invalid_message"; message = error_text e })) s
    | none ↦
        if (check w.unicode w.filter (codes m.text)).blocked
        then reply ref type_error
            (error (record {
              code = "message_blocked";
              message = "Message contains prohibited content";
            }))
            s
        else check_chat ref sid m s
  ]

  unfoldable pub handle_message : ℕ → String → ClientMessage → World w → World w
  unfolding check_content
  handle_message ref sid (message m) s =
      let (verdict, s') = with_redis (allow w.redis sid rule_message) s in
      if verdict.allowed
      then check_content ref sid m s'
      else reply ref type_rate_limited (rate_limited (record { retry_after = rule_message.window }))
          s'
  handle_message ref sid _ s = s

  unfoldable pub handle_typing : String → ClientMessage → World w → World w
  handle_typing sid (typing m) s =
      nats_call
        (publish_chat_message w.nats m.chat_id (
          w.codec.chat_events.marshal
            (record { type = "typing"; from = sid; text = ""; is_typing = m.is_typing; ts = 0 })))
        s
  handle_typing sid _ s = s

  abbrev pub partner_left_event : String → ChatEvent
  partner_left_event sid = record {
    type = "partner_left";
    from = sid;
    text = "";
    is_typing = false;
    ts = 0;
  }

  -- end_chat for a participant.
  unfoldable pub close_chat : String → String → World w → World w
  close_chat sid chat_id s =
      let s1 =
        nats_call
          (publish_chat_message w.nats chat_id
            (w.codec.chat_events.marshal (partner_left_event sid)))
          s in
      let s2 = nats_call (unsubscribe_from_chat w.nats sid) s1 in
      let s3 = nats_call (unsubscribe_moderation_result w.nats sid) s2 in
      let s4 = redis_call (Store.delete w.redis chat_id) s3 in
      let s5 = redis_call (clear_chat_id w.redis now sid) s4 in
      change_buffer (Buffer.remove chat_id) s5

  -- The error of Get is not looked at: it comes with no session.
  unfoldable pub in_chat : String → Result (Option ChatSession) → Bool
  in_chat sid (ok (some cs)) = is_participant cs sid
  in_chat sid _ = false

  unfoldable pub handle_end_chat : String → ClientMessage → World w → World w
  unfolding close_chat in_chat
  handle_end_chat sid (end_chat m) s =
      let (found, s') = with_redis (Store.get w.redis m.chat_id) s in
      if in_chat sid found then close_chat sid m.chat_id s' else s'
  handle_end_chat sid _ s = s
