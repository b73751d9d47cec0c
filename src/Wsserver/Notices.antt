-- ===== src/Wsserver/Notices.antt =====
-- What cmd/wsserver/main.go does with a message from NATS: the callback of subscribeToChatNATS, and
-- those of the match results, the match notifications and the moderation results.
use whisper_chat.Prelude.{ℕ, String, none, some, if◌then◌else◌, ◌==◌, nat_eq, text_eq, list_eq}
use whisper_chat.Chat.Event.{ChatEvent}
use whisper_chat.Matching.Payloads.{MatchResult, MatchNotification}
use whisper_chat.Session.{status_idle, update_status, set_chat_id, clear_chat_id}
use whisper_chat.Messaging.Client.{
  subscribe_to_chat, unsubscribe_from_chat, unsubscribe_match_found, subscribe_match_notify,
  unsubscribe_match_notify, subscribe_moderation_result,
}
use whisper_chat.Protocol.{
  type_message, type_typing, type_partner_left, type_error, type_match_found, type_match_timeout,
  type_match_accepted, type_match_declined,
}
use whisper_chat.Protocol.Messages.{
  server_chat, server_typing, partner_left, error, match_found, match_timeout, match_accepted,
  match_declined,
}
use whisper_chat.Wsserver.{
  Handler, on_chat, on_match_found, on_match_notify, on_moderation_result, Services, World,
  redis_call, nats_call, tell,
}

module _ {Data : Type 0} (w : Services Data) (now : ℕ) where
  -- The switch of subscribeToChatNATS over the type of the event.
  unfoldable pub show_event : String → ChatEvent → World w → World w
  show_event sid event s =
      if event.type == "message"
      then tell sid type_message
          (server_chat (record { from = "partner"; text = event.text; ts = event.ts })) s
      else if event.type == "typing"
      then tell sid type_typing (server_typing (record { is_typing = event.is_typing })) s
      else if event.type == "partner_left"
      then redis_call (clear_chat_id w.redis now sid)
          (nats_call (unsubscribe_from_chat w.nats sid) (tell sid type_partner_left partner_left s))
      else s

  unfoldable pub hear_chat : String → Data → World w → World w
  unfolding show_event
  hear_chat sid d s = elim (w.codec.chat_events.unmarshal d) [
    | none ↦ s
    | some event ↦ if event.from == sid then s else show_event sid event s
  ]

  unfoldable pub subscribe_to_chat_nats : String → String → World w → World w
  subscribe_to_chat_nats sid chat_id =
      nats_call (subscribe_to_chat w.nats chat_id sid (on_chat sid))

  unfoldable pub hear_moderation : String → Data → World w → World w
  hear_moderation sid d s = elim (w.codec.moderation_results.unmarshal d) [
    | none ↦ s
    | some result ↦
        if result.blocked
        then tell sid type_error
            (error (record {
              code = "content_warning";
              message = "Your message was flagged by our moderation system";
            }))
            s
        else s
  ]

  -- Entering a chat: both accepters do it, one in accept_match, the other when it is notified.
  unfoldable pub enter_chat : String → String → World w → World w
  unfolding subscribe_to_chat_nats
  enter_chat sid chat_id s =
      let s1 = subscribe_to_chat_nats sid chat_id s in
      let s2 = redis_call (set_chat_id w.redis chat_id now sid) s1 in
      let s3 = nats_call (subscribe_moderation_result w.nats sid (on_moderation_result sid)) s2 in
      tell sid type_match_accepted (match_accepted (record { chat_id = chat_id })) s3

  unfoldable pub back_to_idle : String → World w → World w
  back_to_idle sid s =
      redis_call (update_status w.redis status_idle now sid)
        (tell sid type_match_declined match_declined s)

  -- The switch over the type of a match notification.
  unfoldable pub take_notification : String → MatchNotification → World w → World w
  unfolding enter_chat back_to_idle
  take_notification sid notif s =
      if notif.type == "accepted"
      then enter_chat sid notif.chat_id s
      else if notif.type == "declined"
      then back_to_idle sid s
      else if notif.type == "timed_out"
      then back_to_idle sid s
      else s

  unfoldable pub hear_match_notify : String → Data → World w → World w
  unfolding take_notification
  hear_match_notify sid d s = elim (w.codec.match_notifications.unmarshal d) [
    | none ↦ s
    | some notif ↦ nats_call (unsubscribe_match_notify w.nats sid) (take_notification sid notif s)
  ]

  unfoldable pub take_result : String → MatchResult → World w → World w
  take_result sid result s =
      if result.timeout
      then redis_call (update_status w.redis status_idle now sid)
          (tell sid type_match_timeout match_timeout s)
      else let s1 =
          tell sid type_match_found
            (match_found (record {
              chat_id = result.chat_id;
              shared_interests = result.shared_interests;
              accept_deadline = result.accept_deadline;
            }))
            s in
        nats_call (subscribe_match_notify w.nats sid (on_match_notify sid))
          (nats_call (unsubscribe_match_notify w.nats sid) s1)

  unfoldable pub hear_match_found : String → Data → World w → World w
  unfolding take_result
  hear_match_found sid d s = elim (w.codec.match_results.unmarshal d) [
    | none ↦ s
    | some result ↦ nats_call (unsubscribe_match_found w.nats sid) (take_result sid result s)
  ]

  -- NATS runs a callback on the data of a message.
  unfoldable pub deliver : Handler → Data → World w → World w
  unfolding hear_chat hear_moderation hear_match_notify hear_match_found
  deliver (on_chat sid) d s = hear_chat sid d s
  deliver (on_match_found sid) d s = hear_match_found sid d s
  deliver (on_match_notify sid) d s = hear_match_notify sid d s
  deliver (on_moderation_result sid) d s = hear_moderation sid d s
