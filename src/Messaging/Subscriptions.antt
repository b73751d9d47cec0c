-- ===== src/Messaging/Subscriptions.antt =====
-- Which subscriptions a NATSClient of internal/messaging/nats.go keeps and loses.
use whisper_chat.Prelude.{
  ℕ, String, ◌≡◌, refl, sym, subst, ◌∙◌, inl, inr, true, false, Option, none, some, arith,
  if◌then◌else◌, Bool-cases, ◌==◌, nat_eq, text_eq, list_eq, ==-self, ==-ne,
}
use whisper_chat.Prelude.Dict.{lookup, insert, remove, lookup-insert, lookup-remove}
use whisper_chat.Messaging.{Nats, Subject, subject_eq}
use whisper_chat.Messaging.Client.{
  Client, subject_chat, chat_sub_key, keep, subscribe, drop_sub, unsubscribe, subscribe_to_chat,
  unsubscribe_from_chat,
}

module _ {Handler Data : Type 0} (n : Nats Handler Data) where
  -- A new subscription under a key.
  keep-some :
      (key : Subject) (o : Option ℕ) (conn : n.Conn) (c : Client n)
      → (keep n key (o, conn) c).0 ≡ true
      → (sub : ℕ) × (o ≡ some sub)
        × (keep n key (o, conn) c ≡ (true, record { conn = conn; subs = insert key sub c.subs }))
  unfolding keep
  keep-some key none conn c h = absurd (cc h)
  keep-some key (some sub) conn c h = (sub, refl, refl)

  drop_sub-some :
      (key : Subject) (o : Option ℕ) (sub : ℕ) (c : Client n)
      → o ≡ some sub
      → (drop_sub n key o c).1
        ≡ record { conn = (n.unsubscribe sub c.conn).1; subs = remove key c.subs }
  unfolding drop_sub
  drop_sub-some key none sub c h = absurd (cc h)
  drop_sub-some key (some other) sub c h = ground (arith, h)

  restored :
      (key subject : Subject) (h : Handler) (c : Client n) (sub m : ℕ)
      → (n.subscribe subject h c.conn).0 ≡ some sub
      → (if sub == m then none else n.active (n.subscribe subject h c.conn).1 m) ≡ n.active c.conn m
  restored key subject h c sub m number = elim (Bool-cases (sub == m)) [
    | inl same ↦
        let e : sub ≡ m = (nat_eq.beq_iff sub m).0 same in
        rw same (
          sym (
            subst (λ k. n.active c.conn k ≡ none) e
              (n.subscribe_fresh subject h c.conn sub number)))
    | inr other ↦ rw other (n.active-subscribe subject h c.conn sub m number ∙ rw other)
  ]

  emptied :
      (key : Subject) (c : Client n)
      → lookup key c.subs ≡ none
      → (sub : ℕ) (k : Subject)
      → (if key == k then none else lookup k (insert key sub c.subs)) ≡ lookup k c.subs
  emptied key c new sub k = elim (Bool-cases (key == k)) [
    | inl same ↦
        let e : key ≡ k = (subject_eq.beq_iff key k).0 same in
        rw same (sym (subst (λ j. lookup j c.subs ≡ none) e new))
    | inr other ↦ rw other (lookup-insert key k sub c.subs ∙ rw other)
  ]

  keep-unsubscribe :
      (key subject : Subject) (h : Handler) (c : Client n)
      → lookup key c.subs ≡ none
      → (keep n key (n.subscribe subject h c.conn) c).0 ≡ true
      → let c' = (unsubscribe n key (keep n key (n.subscribe subject h c.conn) c).1).1 in
        ((m : ℕ) → n.active c'.conn m ≡ n.active c.conn m)
        × ((k : Subject) → lookup k c'.subs ≡ lookup k c.subs)
  unfolding unsubscribe
  keep-unsubscribe key subject h c new done =
      let (sub, number, kept) =
        keep-some key (n.subscribe subject h c.conn).0 (n.subscribe subject h c.conn).1 c done in
      let c1 : Client n = record {
        conn = (n.subscribe subject h c.conn).1;
        subs = insert key sub c.subs;
      } in
      let found : lookup key c1.subs ≡ some sub = simp (lookup-insert, ==-self) in
      let shut = restored key subject h c in
      let back = emptied key c new in
      rw (kept, drop_sub-some key (lookup key c1.subs) sub c1 found)
        (
          (λ m. n.active-unsubscribe sub m c1.conn ∙ shut sub m number),
          (λ k. lookup-remove key k c1.subs ∙ back sub k),
        )

  -- A session that is in no chat, and whose subscription to a chat succeeds, is rid of it by one
  -- UnsubscribeFromChat: NATS delivers exactly to the subscriptions of before, and the map is as before.
  pub unsubscribe_from_chat-subscribe_to_chat :
      (chat_id session_id : String) (h : Handler) (c : Client n)
      → lookup (chat_sub_key session_id) c.subs ≡ none
      → (subscribe_to_chat n chat_id session_id h c).0 ≡ true
      → let c' =
          (unsubscribe_from_chat n session_id (subscribe_to_chat n chat_id session_id h c).1).1 in
        ((m : ℕ) → n.active c'.conn m ≡ n.active c.conn m)
        × ((k : Subject) → lookup k c'.subs ≡ lookup k c.subs)
  unfolding subscribe_to_chat unsubscribe_from_chat
  unsubscribe_from_chat-subscribe_to_chat chat_id session_id h c =
      keep-unsubscribe (chat_sub_key session_id) (subject_chat chat_id) h c

  -- What a Subscribe that succeeds does.
  record Subscribed (subject : Subject) (h : Handler) (c c' : Client n) : Type 0 where
    sub : ℕ
    found : lookup subject c'.subs ≡ some sub
    fresh : n.active c.conn sub ≡ none
    delivers :
        (m : ℕ) → n.active c'.conn m ≡ (if sub == m then some (subject, h) else n.active c.conn m)

  subscribe-Subscribed :
      (subject : Subject) (h : Handler) (c : Client n)
      → (subscribe n subject h c).0 ≡ true
      → Subscribed subject h c (subscribe n subject h c).1
  unfolding subscribe
  subscribe-Subscribed subject h c done =
      let (sub, number, kept) = keep-some subject _ _ c done in
      record {
        sub = sub;
        found = rw kept (lookup-insert subject subject sub c.subs ∙ rw (==-self subject));
        fresh = n.subscribe_fresh subject h c.conn sub number;
        delivers = λ m. rw kept (n.active-subscribe subject h c.conn sub m number);
      }

  unsubscribe-found :
      (key : Subject) (sub : ℕ) (c : Client n)
      → lookup key c.subs ≡ some sub
      → (lookup key (unsubscribe n key c).1.subs ≡ none)
        × ((m : ℕ)
            → n.active (unsubscribe n key c).1.conn m
              ≡ (if sub == m then none else n.active c.conn m))
  unfolding unsubscribe
  unsubscribe-found key sub c found =
      rw (drop_sub-some key (lookup key c.subs) sub c found)
        (lookup-remove key key c.subs ∙ rw (==-self key), λ m. n.active-unsubscribe sub m c.conn)

  -- A second subscription to a subject, with any handler and without an Unsubscribe in between, loses
  -- the first one: after one Unsubscribe the client has nothing under the subject any more, and the
  -- subscription that it had after the first call is one to which NATS still delivers.
  pub subscribe_twice :
      (subject : Subject) (h h' : Handler) (c : Client n)
      → (subscribe n subject h c).0 ≡ true
      → (subscribe n subject h' (subscribe n subject h c).1).0 ≡ true
      → let c1 = (subscribe n subject h c).1 in
        let c' = (unsubscribe n subject (subscribe n subject h' c1).1).1 in
        (lookup subject c'.subs ≡ none)
        × ((first : ℕ) × (lookup subject c1.subs ≡ some first)
            × (n.active c1.conn first ≡ some (subject, h))
            × (n.active c'.conn first ≡ some (subject, h)))
  subscribe_twice subject h h' c done done' =
      let c1 : Client n = (subscribe n subject h c).1 in
      let one = subscribe-Subscribed subject h c done in
      let two = subscribe-Subscribed subject h' c1 done' in
      let (empty, gone) =
        unsubscribe-found subject two.sub (subscribe n subject h' c1).1 two.found in
      let delivered : n.active c1.conn one.sub ≡ some (subject, h) =
        one.delivers one.sub ∙ rw (==-self one.sub) in
      let apart : (two.sub == one.sub) ≡ false =
        ==-ne two.sub one.sub (λ e. absurd (cc (two.fresh, delivered, e))) in
      let still = gone one.sub ∙ rw apart (two.delivers one.sub ∙ rw apart delivered) in
      (empty, (one.sub, one.found, delivered, still))
