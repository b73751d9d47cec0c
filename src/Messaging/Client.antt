-- ===== src/Messaging/Client.antt =====
-- NATSClient of internal/messaging/nats.go: the subscriptions by their keys, and a method per subject.
-- `true` stands for a nil error.
use whisper_chat.Prelude.{
  ℕ, String, Bool, true, false, Option, none, some, [], ◌∷◌, nat_eq, text_eq, list_eq,
}
use whisper_chat.Prelude.Dict.{Dict, lookup, insert, remove}
use whisper_chat.Messaging.{Nats, Subject, subject_eq}

abbrev pub subject_match_request : Subject
subject_match_request = record { prefix = "match.request"; id = "" }

abbrev pub subject_match_cancel : Subject
subject_match_cancel = record { prefix = "match.cancel"; id = "" }

abbrev pub subject_match_found : String → Subject
subject_match_found session_id = record { prefix = "match.found"; id = session_id }

abbrev pub subject_match_notify : String → Subject
subject_match_notify session_id = record { prefix = "match.notify"; id = session_id }

abbrev pub subject_chat : String → Subject
subject_chat chat_id = record { prefix = "chat"; id = chat_id }

abbrev pub subject_moderation : Subject
subject_moderation = record { prefix = "moderation.check"; id = "" }

abbrev pub subject_moderation_result : String → Subject
subject_moderation_result session_id = record { prefix = "moderation.result"; id = session_id }

-- The key under which a session's chat subscription is kept.
abbrev pub chat_sub_key : String → Subject
chat_sub_key session_id = record { prefix = "chatsub:"; id = session_id }

module _ {Handler Data : Type 0} (n : Nats Handler Data) where
  -- NATSClient: the connection and the map of subscriptions.
  pub record Client : Type 0 where
    pub conn : n.Conn
    pub subs : Dict Subject ℕ

  unfoldable pub publish : Subject → Data → Client → Bool × Client
  publish subject d c =
      let (done, conn) = n.publish subject d c.conn in (done, record c { conn = conn })

  -- The subscription is put under its key, in place of one that is there.
  unfoldable pub keep : Subject → Option ℕ × n.Conn → Client → Bool × Client
  keep key (none, conn) c = (false, record c { conn = conn })
  keep key (some sub, conn) c = (true, record { conn = conn; subs = insert key sub c.subs })

  unfoldable pub subscribe : Subject → Handler → Client → Bool × Client
  subscribe subject h c = keep subject (n.subscribe subject h c.conn) c

  -- The key is gone whether or not NATS takes the request.
  unfoldable pub drop_sub : Subject → Option ℕ → Client → Bool × Client
  drop_sub key none c = (false, c)
  drop_sub key (some sub) c =
      let (done, conn) = n.unsubscribe sub c.conn in
      (done, record { conn = conn; subs = remove key c.subs })

  unfoldable pub unsubscribe : Subject → Client → Bool × Client
  unsubscribe key c = drop_sub key (lookup key c.subs) c

  unfoldable pub subscribe_to_chat : String → String → Handler → Client → Bool × Client
  subscribe_to_chat chat_id session_id h c =
      keep (chat_sub_key session_id) (n.subscribe (subject_chat chat_id) h c.conn) c

  unfoldable pub unsubscribe_from_chat : String → Client → Bool × Client
  unsubscribe_from_chat session_id = unsubscribe (chat_sub_key session_id)

  unfoldable pub publish_chat_message : String → Data → Client → Bool × Client
  publish_chat_message chat_id = publish (subject_chat chat_id)

  unfoldable pub publish_match_request : Data → Client → Bool × Client
  publish_match_request = publish subject_match_request

  unfoldable pub subscribe_match_found : String → Handler → Client → Bool × Client
  subscribe_match_found session_id = subscribe (subject_match_found session_id)

  unfoldable pub unsubscribe_match_found : String → Client → Bool × Client
  unsubscribe_match_found session_id = unsubscribe (subject_match_found session_id)

  unfoldable pub subscribe_match_request : Handler → Client → Bool × Client
  subscribe_match_request = subscribe subject_match_request

  unfoldable pub subscribe_match_cancel : Handler → Client → Bool × Client
  subscribe_match_cancel = subscribe subject_match_cancel

  unfoldable pub publish_match_cancel : Data → Client → Bool × Client
  publish_match_cancel = publish subject_match_cancel

  unfoldable pub subscribe_match_notify : String → Handler → Client → Bool × Client
  subscribe_match_notify session_id = subscribe (subject_match_notify session_id)

  unfoldable pub unsubscribe_match_notify : String → Client → Bool × Client
  unsubscribe_match_notify session_id = unsubscribe (subject_match_notify session_id)

  unfoldable pub publish_match_notify : String → Data → Client → Bool × Client
  publish_match_notify session_id = publish (subject_match_notify session_id)

  unfoldable pub publish_moderation_request : Data → Client → Bool × Client
  publish_moderation_request = publish subject_moderation

  unfoldable pub subscribe_moderation_check : Handler → Client → Bool × Client
  subscribe_moderation_check = subscribe subject_moderation

  unfoldable pub publish_moderation_result : String → Data → Client → Bool × Client
  publish_moderation_result session_id = publish (subject_moderation_result session_id)

  unfoldable pub subscribe_moderation_result : String → Handler → Client → Bool × Client
  subscribe_moderation_result session_id = subscribe (subject_moderation_result session_id)

  unfoldable pub unsubscribe_moderation_result : String → Client → Bool × Client
  unsubscribe_moderation_result session_id = unsubscribe (subject_moderation_result session_id)

  -- The loop of Close; a failed drain is logged only.
  unfoldable pub drain_subs : Dict Subject ℕ → n.Conn → n.Conn
  drain_subs [] conn = conn
  drain_subs ((key, sub) ∷ subs) conn = drain_subs subs (n.drain sub conn).1

  unfoldable pub close : Client → Client
  close c = record { conn = (n.drain_all (drain_subs c.subs c.conn)).1; subs = [] }
