-- ===== src/Wsserver/Delivery.antt =====
-- What a user of cmd/wsserver/main.go sees of the partner.
use whisper_chat.Prelude.{
  ℕ, String, ◌≡◌, refl, ◌∙◌, ◌≢◌, ◌⊎◌, inl, inr, true, some, [], ◌∷◌, ◌++◌, arith, Bool-cases, ◌==◌,
  nat_eq, text_eq, list_eq,
}
use whisper_chat.Prelude.Dict.{Dict, insert}
use whisper_chat.Protocol.{Json, str, num, type_message}
use whisper_chat.Protocol.Messages.{server_chat}
use whisper_chat.Protocol.Server.{new_server_message, fields}
use whisper_chat.Ws.Connections.{Connection, get}
use whisper_chat.Ws.Server.{Frame, text_frame, send_message}
use whisper_chat.Wsserver.{on_chat, Services, World}
use whisper_chat.Wsserver.Chatting.{message_event}
use whisper_chat.Wsserver.Notices.{deliver, hear_chat, show_event}

module _ {Data : Type 0} (w : Services Data) (now : ℕ) where
  -- The frame that shows a partner's message. The sender's identifier is no part of it.
  abbrev pub partner_frame : String → ℕ → Frame
  partner_frame text ts =
      text_frame (
        ("type", str "message")
        ∷ ("from", str "partner")
        ∷ ("text", str text)
        ∷ ("ts", num ts)
        ∷ [])

  written-send_message :
      (id : String) (m : Dict String Json) (s : World w) (ref : ℕ) (c : Connection)
      → get id s.conns ≡ some (ref, c)
      → (w.sockets.write c.socket (text_frame m) s.net).0 ≡ true
      → w.sockets.written (send_message w.sockets id m s).1.net
        ≡ w.sockets.written s.net ++ (c.socket, text_frame m) ∷ []
  unfolding send_message
  written-send_message id m s ref c here takes =
      rw (send_message, here)
        (w.sockets.written-write c.socket (text_frame m) s.net ∙ rw takes refl)

  -- When NATS delivers the event of a chat message to a subscriber of the chat who is connected and
  -- whose socket takes the frame: if that is the sender, nothing changes; if not, one frame more is
  -- written, to the subscriber's socket, with the text and the time of the message, from "partner",
  -- whoever the sender is.
  pub deliver-message_event :
      (sent_at : ℕ) (sender sid text : String) (s : World w) (ref : ℕ) (c : Connection)
      → get sid s.conns ≡ some (ref, c)
      → (w.sockets.write c.socket (partner_frame text sent_at) s.net).0 ≡ true
      → let s' =
          deliver w now
            (on_chat sid)
            (w.codec.chat_events.marshal (message_event w sent_at sender text))
            s in
        ((sender ≡ sid) × (s' ≡ s))
        ⊎ ((sender ≢ sid)
            × (w.sockets.written s'.net
                ≡ w.sockets.written s.net ++ (c.socket, partner_frame text sent_at) ∷ []))
  unfolding deliver hear_chat show_event new_server_message fields insert
  deliver-message_event sent_at sender sid text s ref c here takes =
      let read = w.codec.chat_events.unmarshal-marshal (message_event w sent_at sender text) in
      elim (Bool-cases (sender == sid)) [
        | inl own ↦ inl ((text_eq.beq_iff sender sid).0 own, rw (hear_chat, read, own) refl)
        | inr other ↦ inr (
          (λ e. ground (arith, e, other, text_eq.beq_iff sender sid)),
          rw (hear_chat, read, other)
              (written-send_message sid
                (new_server_message type_message
                  (server_chat (record { from = "partner"; text = text; ts = sent_at })))
                s ref c here takes),
        )
      ]
