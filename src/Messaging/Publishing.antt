-- ===== src/Messaging/Publishing.antt =====
-- What NATS has been given, after a call of the client.
use whisper_chat.Prelude.{
  ℕ, ◌≡◌, refl, ◌∙◌, true, Option, none, some, [], ◌∷◌, ◌++◌, nat_eq, text_eq, list_eq,
}
use whisper_chat.Prelude.Dict.{lookup}
use whisper_chat.Messaging.{Nats, Subject, subject_eq}
use whisper_chat.Messaging.Client.{Client, publish, keep, subscribe, drop_sub, unsubscribe}

module _ {Handler Data : Type 0} (n : Nats Handler Data) where
  pub sent-publish_taken :
      (subject : Subject) (d : Data) (c : Client n)
      → (n.publish subject d c.conn).0 ≡ true
      → n.sent (publish n subject d c).1.conn ≡ n.sent c.conn ++ (subject, d) ∷ []
  unfolding publish
  sent-publish_taken subject d c takes = n.sent-publish subject d c.conn ∙ rw takes refl

  sent-drop_sub :
      (key : Subject) (sub : Option ℕ) (c : Client n)
      → n.sent (drop_sub n key sub c).1.conn ≡ n.sent c.conn
  unfolding drop_sub
  sent-drop_sub key none c = refl
  sent-drop_sub key (some sub) c = n.sent-unsubscribe sub c.conn

  pub sent-unsubscribe_key :
      (key : Subject) (c : Client n) → n.sent (unsubscribe n key c).1.conn ≡ n.sent c.conn
  unfolding unsubscribe
  sent-unsubscribe_key key c = sent-drop_sub key (lookup key c.subs) c

  sent-keep :
      (key : Subject) (o : Option ℕ) (conn : n.Conn) (c : Client n)
      → n.sent (keep n key (o, conn) c).1.conn ≡ n.sent conn
  unfolding keep
  sent-keep key none conn c = refl
  sent-keep key (some sub) conn c = refl

  pub sent-subscribe_key :
      (subject : Subject) (h : Handler) (c : Client n)
      → n.sent (subscribe n subject h c).1.conn ≡ n.sent c.conn
  unfolding subscribe
  sent-subscribe_key subject h c = sent-keep subject _ _ c ∙ n.sent-subscribe subject h c.conn
