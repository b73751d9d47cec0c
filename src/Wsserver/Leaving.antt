-- ===== src/Wsserver/Leaving.antt =====
-- Who hears from cmd/wsserver/main.go that a user is gone.
use mathlib.Core.List.{append-nil, append_assoc}
use whisper_chat.Prelude.{
  ℕ, String, ◌≡◌, refl, sym, ap, ◌∙◌, inl, inr, Bool, true, false, not, ◌&&◌, ◌||◌, Option, none,
  some, List, [], ◌∷◌, ◌++◌, if◌then◌else◌, Bool-cases, ◌==◌, nat_eq, text_eq, list_eq,
}
use whisper_chat.Redis.Client.{Result, ok, err}
use whisper_chat.Session.{Session}
use whisper_chat.Messaging.{Subject}
use whisper_chat.Messaging.Client.{
  Client, publish, publish_match_cancel, unsubscribe_match_found, unsubscribe_match_notify,
  publish_chat_message, unsubscribe_from_chat, unsubscribe_moderation_result,
  subject_moderation_result, chat_sub_key, subject_chat, subject_match_cancel, subject_match_found,
  subject_match_notify,
}
use whisper_chat.Messaging.Publishing.{sent-publish_taken, sent-unsubscribe_key}
use whisper_chat.Wsserver.{Services, App}
use whisper_chat.Wsserver.Chatting.{partner_left_event, in_chat}
use whisper_chat.Wsserver.Disconnect.{leave_queue, leave_chat, clean_up, disconnected}
use whisper_chat.Chat.Store
use whisper_chat.Session

module _ {Data : Type 0} (w : Services Data) (now : ℕ) where
  -- The matcher hears of a user who waits.
  abbrev pub to_matcher : String → Session → List (Subject × Data)
  to_matcher id session =
      if session.status == "matching"
      then (subject_match_cancel, w.codec.cancel_requests.marshal (record { session_id = id })) ∷ []
      else []

  abbrev pub is_in : String → Result (Option Store.ChatSession) → Bool
  is_in id (ok (some cs)) = id == cs.user_a || id == cs.user_b
  is_in id _ = false

  -- The other user of the chat hears of one who chats.
  abbrev pub to_partner : String → Session → w.redis.State → List (Subject × Data)
  to_partner id session rdb =
      if not (session.chat_id == "") && is_in id (Store.get w.redis session.chat_id rdb).0
      then (
        subject_chat session.chat_id,
        w.codec.chat_events.marshal
            (record { type = "partner_left"; from = id; text = ""; is_typing = false; ts = 0 }),
      )
        ∷ []
      else []

  abbrev pub notices : String → Result (Option Session) → w.redis.State → List (Subject × Data)
  notices id (ok (some session)) rdb = to_matcher id session ++ to_partner id session rdb
  notices id _ rdb = []

  module _
      (takes : (subject : Subject) (d : Data) (c : w.nats.Conn)
        → (w.nats.publish subject d c).0 ≡ true) where
    sent-leave_queue :
        (id : String) (a : App w)
        → w.nats.sent (leave_queue w now id a).nats.conn
          ≡ w.nats.sent a.nats.conn
            ++ (subject_match_cancel, w.codec.cancel_requests.marshal (record { session_id = id }))
              ∷ []
    unfolding leave_queue publish_match_cancel unsubscribe_match_found unsubscribe_match_notify
    sent-leave_queue id a =
        let cancel = w.codec.cancel_requests.marshal (record { session_id = id }) in
        let c1 : Client w.nats = (publish w.nats subject_match_cancel cancel a.nats).1 in
        let c2 : Client w.nats = (unsubscribe_match_found w.nats id c1).1 in
        sent-unsubscribe_key w.nats (subject_match_notify id) c2
        ∙ sent-unsubscribe_key w.nats (subject_match_found id) c1
        ∙ sent-publish_taken w.nats subject_match_cancel cancel a.nats (takes _ _ _)

    in_chat-is_in :
        (id : String) (found : Result (Option Store.ChatSession))
        → in_chat w now id found ≡ is_in id found
    unfolding in_chat Store.is_participant
    in_chat-is_in id (ok (some cs)) = refl
    in_chat-is_in id (ok none) = refl
    in_chat-is_in id err = refl

    abbrev left : String → String → Subject × Data
    left id chat_id =
        (subject_chat chat_id, w.codec.chat_events.marshal (partner_left_event w now id))

    sent-leave_chat :
        (id chat_id : String) (a : App w)
        → w.nats.sent (leave_chat w now id chat_id a).nats.conn
          ≡ w.nats.sent a.nats.conn
            ++ (if is_in id (Store.get w.redis chat_id a.rdb).0 then left id chat_id ∷ [] else [])
    unfolding leave_chat publish_chat_message unsubscribe_from_chat unsubscribe_moderation_result
    sent-leave_chat id chat_id a =
        let found = (Store.get w.redis chat_id a.rdb).0 in
        let d = w.codec.chat_events.marshal (partner_left_event w now id) in
        let c1 : Client w.nats = (publish w.nats (subject_chat chat_id) d a.nats).1 in
        let c2 : Client w.nats = (unsubscribe_from_chat w.nats id c1).1 in
        elim (Bool-cases (in_chat w now id found)) [
          | inl inside ↦
              let yes : is_in id found ≡ true = sym (in_chat-is_in id found) ∙ inside in
              rw (inside, yes)
                (sent-unsubscribe_key w.nats (subject_moderation_result id) c2
                  ∙ sent-unsubscribe_key w.nats (chat_sub_key id) c1
                  ∙ sent-publish_taken w.nats (subject_chat chat_id) d a.nats (takes _ _ _))
          | inr outside ↦
              let no : is_in id found ≡ false = sym (in_chat-is_in id found) ∙ outside in
              rw (outside, no) (sym (append-nil (w.nats.sent a.nats.conn)))
        ]

    sent-leave_all :
        (id : String) (session : Session) (a : App w)
        → w.nats.sent (clean_up w now id (ok (some session)) a).nats.conn
          ≡ w.nats.sent a.nats.conn ++ (to_matcher id session ++ to_partner id session a.rdb)
    unfolding clean_up leave_queue
    sent-leave_all id session a =
        let a1 : App w = leave_queue w now id a in
        let told = w.nats.sent a.nats.conn in
        let partner : List (Subject × Data) =
          if is_in id (Store.get w.redis session.chat_id a.rdb).0
          then left id session.chat_id ∷ []
          else [] in
        elim (Bool-cases (session.status == "matching")) [
          | inl waits ↦ elim (Bool-cases (session.chat_id == "")) [
            | inl idle ↦ rw (waits, idle) (sent-leave_queue id a)
            | inr chats ↦
                rw (waits, chats)
                  (sent-leave_chat id session.chat_id a1
                    ∙ ap (λ l. l ++ partner) (sent-leave_queue id a)
                    ∙ append_assoc told _ _)
          ]
          | inr other ↦ elim (Bool-cases (session.chat_id == "")) [
            | inl idle ↦ rw (other, idle) (sym (append-nil told))
            | inr chats ↦ rw (other, chats) (sent-leave_chat id session.chat_id a)
          ]
        ]

    sent-clean_up :
        (id : String) (found : Result (Option Session)) (a : App w)
        → w.nats.sent (clean_up w now id found a).nats.conn
          ≡ w.nats.sent a.nats.conn ++ notices id found a.rdb
    unfolding clean_up
    sent-clean_up id err a = sym (append-nil (w.nats.sent a.nats.conn))
    sent-clean_up id (ok none) a = sym (append-nil (w.nats.sent a.nats.conn))
    sent-clean_up id (ok (some session)) a = sent-leave_all id session a

    -- When a user is gone and NATS takes what is published, the matcher is told if the session that
    -- Redis still has says that the user waits for a match, and the chat of the session, if there is
    -- one and the user is in it, is told that the partner left. Nothing else is published.
    pub sent-disconnected :
        (id : String) (a : App w)
        → let (found, rdb) = Session.get w.redis id a.rdb in
          w.nats.sent (disconnected w now id a).nats.conn
          ≡ w.nats.sent a.nats.conn ++ notices id found rdb
    unfolding disconnected
    sent-disconnected id a =
        let (found, rdb) = Session.get w.redis id a.rdb in
        sent-clean_up id found (record a { rdb = rdb })
