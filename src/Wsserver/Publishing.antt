-- ===== src/Wsserver/Publishing.antt =====
-- When the message handler of cmd/wsserver/main.go passes a message on.
use mathlib.Core.List.{append_assoc}
use whisper_chat.Prelude.{
  ℕ, String, ◌≡◌, refl, ap, subst, ◌∙◌, inl, inr, Bool, true, false, not, ◌&&◌, ◌||◌, Option, none,
  some, List, [], ◌∷◌, ◌++◌, if◌then◌else◌, Bool-cases, Option-cases, ◌==◌, nat_eq, text_eq,
  list_eq,
}
use whisper_chat.Prelude.Dict.{Dict, lookup}
use whisper_chat.Moderation.Patterns.{codes}
use whisper_chat.Moderation.Filter.{check}
use whisper_chat.Ratelimit.{rule_message, allow}
use whisper_chat.Chat.Validator.{validate_message}
use whisper_chat.Chat.Buffer.{BufferedMessage}
use whisper_chat.Messaging.Publishing.{sent-publish_taken}
use whisper_chat.Messaging.{Subject}
use whisper_chat.Messaging.Client.{
  publish, publish_chat_message, publish_moderation_request, subject_chat, subject_moderation,
}
use whisper_chat.Protocol.Server.{new_server_message}
use whisper_chat.Protocol.Messages.{ServerMessage, message, ChatMsg}
use whisper_chat.Protocol.{Json}
use whisper_chat.Ws.Server.{Sockets, Server, write_message, send_message}
use whisper_chat.Wsserver.{Services, World, with_redis, reply}
use whisper_chat.Wsserver.Chatting.{
  bytes, may_send, message_event, send_on, check_chat, check_content, handle_message,
}
use whisper_chat.Redis.Client.{Result, ok, err}
use whisper_chat.Chat.Store.{ChatSession, is_participant}
use whisper_chat.Chat.Store
use whisper_chat.Chat.Buffer
use whisper_chat.Ws.Connections

-- The session is in the chat, and the chat is active.
abbrev pub in_active_chat : String → Result (Option ChatSession) → Bool
in_active_chat sid (ok (some cs)) = (sid == cs.user_a || sid == cs.user_b) && cs.status == "active"
in_active_chat sid _ = false

may_send-in_active_chat :
    (sid : String) (found : Result (Option ChatSession))
    → may_send sid found ≡ in_active_chat sid found
unfolding may_send is_participant
may_send-in_active_chat sid (ok (some cs)) = refl
may_send-in_active_chat sid (ok none) = refl
may_send-in_active_chat sid err = refl

module _ (k : Sockets) {A : Type 0} where
  -- A write to a socket does not touch the application.
  pub app-write_message :
      (ref : ℕ) (m : Dict String Json) (s : Server k A) → (write_message k ref m s).1.app ≡ s.app
  unfolding write_message
  app-write_message ref m s = elim (Option-cases (lookup ref s.conns.heap)) [
    | inl gone ↦ rw (write_message, gone) refl
    | inr (c, here) ↦ rw (write_message, here) refl
  ]

  pub app-send_message :
      (id : String) (m : Dict String Json) (s : Server k A) → (send_message k id m s).1.app ≡ s.app
  unfolding send_message
  app-send_message id m s = elim (Option-cases (Connections.get id s.conns)) [
    | inl gone ↦ rw (send_message, gone) refl
    | inr (p, here) ↦ rw (send_message, here) refl
  ]

module _ {Data : Type 0} (w : Services Data) (now : ℕ) where
  abbrev pub review_request : String → ChatMsg → Data
  review_request sid m =
      w.codec.moderation_requests.marshal
        (record { session_id = sid; chat_id = m.chat_id; text = m.text; ts = now })

  -- What is passed on for a message: the event to the chat and the request for a review.
  abbrev pub passed_on : String → ChatMsg → List (Subject × Data)
  passed_on sid m =
      (subject_chat m.chat_id, w.codec.chat_events.marshal (message_event w now sid m.text))
      ∷ (subject_moderation, review_request sid m)
      ∷ []

  -- The four tests, on what Redis answers.
  abbrev pub is_sendable : String → ChatMsg → w.redis.State → Bool
  is_sendable sid m rdb =
      let (verdict, rdb') = allow w.redis sid rule_message rdb in
      verdict.allowed
      && (elim (validate_message (bytes m.text)) [ none ↦ true | some e ↦ false ]
          && (not (check w.unicode w.filter (codes m.text)).blocked
              && in_active_chat sid (Store.get w.redis m.chat_id rdb').0))

  module _
      (takes : (subject : Subject) (d : Data) (c : w.nats.Conn)
        → (w.nats.publish subject d c).0 ≡ true) where
    sent-send_on :
        (sid : String) (m : ChatMsg) (s : World w)
        → w.nats.sent (send_on w now sid m s).app.nats.conn
          ≡ w.nats.sent s.app.nats.conn ++ passed_on sid m
    unfolding send_on publish_chat_message publish_moderation_request
    sent-send_on sid m s =
        let c = s.app.nats in
        let event = w.codec.chat_events.marshal (message_event w now sid m.text) in
        let c1 = (publish w.nats (subject_chat m.chat_id) event c).1 in
        let first = sent-publish_taken w.nats (subject_chat m.chat_id) event c (takes _ _ _) in
        let second =
          sent-publish_taken w.nats subject_moderation (review_request sid m) c1 (takes _ _ _) in
        second
        ∙ ap (λ l. l ++ (subject_moderation, review_request sid m) ∷ []) first
        ∙ append_assoc (w.nats.sent c.conn) _ _

    -- What has become of the connection to NATS and of the buffer.
    abbrev Outcome : Bool → String → ChatMsg → World w → World w → Type 0
    Outcome passes sid m s s' =
        (w.nats.sent s'.app.nats.conn ≡ (
          if passes
          then w.nats.sent s.app.nats.conn ++ passed_on sid m
          else w.nats.sent s.app.nats.conn))
        × (s'.app.buffer ≡ (
            if passes
            then Buffer.add m.chat_id (record { sender = sid; text = bytes m.text; ts = now })
                s.app.buffer
            else s.app.buffer))

    Outcome-reply :
        (ref : ℕ) (sid msg_type : String) (m : ChatMsg) (answer : ServerMessage) (s : World w)
        → Outcome false sid m s (reply ref msg_type answer s)
    Outcome-reply ref sid msg_type m answer s =
        let same = app-write_message w.sockets ref (new_server_message msg_type answer) s in
        (ap (λ a. w.nats.sent a.nats.conn) same, ap (λ a. a.buffer) same)

    Outcome-check_chat :
        (ref : ℕ) (sid : String) (m : ChatMsg) (s : World w)
        → Outcome
            (in_active_chat sid (Store.get w.redis m.chat_id s.app.rdb).0)
            sid
            m
            s
            (check_chat w now ref sid m s)
    unfolding check_chat send_on
    Outcome-check_chat ref sid m s =
        let s1 : World w = (with_redis (Store.get w.redis m.chat_id) s).1 in
        let answer = (Store.get w.redis m.chat_id s.app.rdb).0 in
        subst (λ b. Outcome b sid m s (check_chat w now ref sid m s))
          (may_send-in_active_chat sid answer)
          (elim (Bool-cases (may_send sid (Store.get w.redis m.chat_id s.app.rdb).0)) [
            | inl may ↦ rw may (sent-send_on sid m s1, refl)
            | inr refused ↦ rw refused (Outcome-reply ref sid _ m _ s1)
          ])

    Outcome-check_content :
        (ref : ℕ) (sid : String) (m : ChatMsg) (s : World w)
        → Outcome
            (elim (validate_message (bytes m.text)) [ none ↦ true | some e ↦ false ]
              && (not (check w.unicode w.filter (codes m.text)).blocked
                  && in_active_chat sid (Store.get w.redis m.chat_id s.app.rdb).0))
            sid
            m
            s
            (check_content w now ref sid m s)
    unfolding check_content
    Outcome-check_content ref sid m s = elim (Option-cases (validate_message (bytes m.text))) [
      | inr (e, invalid) ↦ rw (check_content, invalid) (Outcome-reply ref sid _ m _ s)
      | inl valid ↦ elim (Bool-cases (check w.unicode w.filter (codes m.text)).blocked) [
        | inl blocked ↦ rw (check_content, valid, blocked) (Outcome-reply ref sid _ m _ s)
        | inr clean ↦ rw (check_content, valid, clean) (Outcome-check_chat ref sid m s)
      ]
    ]

    -- Where NATS takes what is published: a message is passed on if the session is within its rate
    -- limit, the text is valid, the filter blocks nothing in it, and the chat is active with the session
    -- in it; then the chat's event and the request for a review are published, in this order, and the
    -- message is buffered for reports. In every other case nothing is published and nothing is buffered.
    pub handle_message-is_sendable :
        (ref : ℕ) (sid : String) (m : ChatMsg) (s : World w)
        → let s' = handle_message w now ref sid (message m) s in
          let passes = is_sendable sid m s.app.rdb in
          (w.nats.sent s'.app.nats.conn ≡ (
            if passes
            then w.nats.sent s.app.nats.conn ++ passed_on sid m
            else w.nats.sent s.app.nats.conn))
          × (s'.app.buffer ≡ (
              if passes
              then Buffer.add m.chat_id
                  (record { sender = sid; text = bytes m.text; ts = now })
                  s.app.buffer
              else s.app.buffer))
    unfolding handle_message
    handle_message-is_sendable ref sid m s =
        let s1 : World w = (with_redis (allow w.redis sid rule_message) s).1 in
        elim (Bool-cases (allow w.redis sid rule_message s.app.rdb).0.allowed) [
          | inl within ↦ rw within (Outcome-check_content ref sid m s1)
          | inr limited ↦ rw limited (Outcome-reply ref sid _ m _ s1)
        ]
