-- ===== src/Moderator.antt =====
-- cmd/moderator/main.go: the process that reviews messages after they were sent.
use whisper_chat.Prelude.{
  ◌≡◌, refl, ◌∙◌, inl, inr, true, none, some, [], ◌∷◌, ◌++◌, if◌then◌else◌, Bool-cases, nat_eq,
  text_eq, list_eq,
}
use whisper_chat.Moderation.Unicode.{Unicode}
use whisper_chat.Moderation.Patterns.{codes}
use whisper_chat.Moderation.Filter.{Filter, check}
use whisper_chat.Moderation.Spam.{FilterResult}
use whisper_chat.Moderation.Reviews.{ModerationRequest, ModerationResult}
use whisper_chat.Messaging.{Nats, Subject}
use whisper_chat.Messaging.Client.{
  Client, publish, publish_moderation_result, subject_moderation_result,
}
use whisper_chat.Payloads.{Codec}

module _ {Handler Data : Type 0} (n : Nats Handler Data) (codec : Codec Data) (u : Unicode)
    (filter : Filter) where
  abbrev pub result_of : ModerationRequest → FilterResult → ModerationResult
  result_of req result = record {
    session_id = req.session_id;
    chat_id = req.chat_id;
    blocked = true;
    reason = result.reason;
    term = result.term;
  }

  -- The callback of SubscribeModerationCheck.
  unfoldable pub review : Data → Client n → Client n
  review d c = elim (codec.moderation_requests.unmarshal d) [
    | none ↦ c
    | some req ↦
        let result = check u filter (codes req.text) in
        if result.blocked
        then (publish_moderation_result n req.session_id
            (codec.moderation_results.marshal (result_of req result)) c).1
        else c
  ]

  -- On a request for a review, where NATS takes what is sent, a message that the filter blocks is
  -- reported once, to the session that sent it, with its chat and the filter's reason and term; of any
  -- other message nothing is sent.
  pub sent-review :
      (req : ModerationRequest) (c : Client n)
      → ((subject : Subject) (d : Data) (conn : n.Conn) → (n.publish subject d conn).0 ≡ true)
      → let result = check u filter (codes req.text) in
        let verdict : ModerationResult = record {
          session_id = req.session_id;
          chat_id = req.chat_id;
          blocked = true;
          reason = result.reason;
          term = result.term;
        } in
        n.sent (review (codec.moderation_requests.marshal req) c).conn ≡ (
          if result.blocked
          then n.sent c.conn
            ++ (
              record { prefix = "moderation.result"; id = req.session_id },
              codec.moderation_results.marshal verdict,
            )
              ∷ []
          else n.sent c.conn)
  unfolding review publish_moderation_result publish
  sent-review req c takes =
      let result = check u filter (codes req.text) in
      let note = codec.moderation_results.marshal (result_of req result) in
      let subject = subject_moderation_result req.session_id in
      let read = codec.moderation_requests.unmarshal-marshal req in
      elim (Bool-cases result.blocked) [
        | inl blocked ↦
            rw (review, read, blocked)
              (n.sent-publish subject note c.conn ∙ rw (takes subject note c.conn) refl)
        | inr clean ↦ rw (review, read, clean) refl
      ]
