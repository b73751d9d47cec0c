-- ===== src/Protocol/Types.antt =====
-- Which types ParseClientMessage of internal/protocol/messages.go lets through.
use whisper_chat.Prelude.{
  String, ◌≡◌, refl, sym, subst, ◌∙◌, inl, inr, Bool, true, Option, none, some, arith,
  if◌then◌else◌, Bool-cases, ◌==◌, nat_eq, text_eq, list_eq, contains,
}
use whisper_chat.Protocol.{
  Json, Members, client_types, type_set_fingerprint, type_find_match, type_cancel_match,
  type_accept_match, type_decline_match, type_message, type_typing, type_end_chat, type_report,
  type_ping,
}
use whisper_chat.Protocol.Messages.{
  ClientMessage, set_fingerprint, find_match, cancel_match, accept_match, decline_match, message,
  typing, end_chat, report, ping,
}
use whisper_chat.Protocol.Parse.{
  decode, envelope_type, payload, parsed, parse_client_message, decode_set_fingerprint,
  decode_find_match, decode_cancel_match, decode_accept_match, decode_decline_match, decode_message,
  decode_typing, decode_end_chat, decode_report, decode_ping,
}
use whisper_chat.Protocol.Roundtrip.{type_of}

-- One case of the switch.
first_of :
    (type t : String) (m : ClientMessage) (x y : Option ClientMessage)
    → (x ≡ some m → type_of m ≡ t)
    → (y ≡ some m → type_of m ≡ type)
    → (if type == t then x else y) ≡ some m
    → type_of m ≡ type
first_of type t m x y now later = elim (Bool-cases (type == t)) [
  | inl same ↦ rw same (λ h. now h ∙ sym ((text_eq.beq_iff type t).0 same))
  | inr other ↦ rw other later
]

known_type : (m : ClientMessage) → contains (type_of m) client_types ≡ true
unfolding contains
known_type (set_fingerprint m) = refl
known_type (find_match m) = refl
known_type (cancel_match m) = refl
known_type (accept_match m) = refl
known_type (decline_match m) = refl
known_type (message m) = refl
known_type (typing m) = refl
known_type (end_chat m) = refl
known_type (report m) = refl
known_type (ping m) = refl

module _ (same_key : String → String → Bool) where
  decode_set_fingerprint-type :
      (ps : Members) (m : ClientMessage)
      → decode_set_fingerprint same_key ps ≡ some m
      → type_of m ≡ type_set_fingerprint
  unfolding decode_set_fingerprint
  decode_set_fingerprint-type ps m h = ground arith

  decode_find_match-type :
      (ps : Members) (m : ClientMessage)
      → decode_find_match same_key ps ≡ some m
      → type_of m ≡ type_find_match
  unfolding decode_find_match
  decode_find_match-type ps m h = ground arith

  decode_cancel_match-type :
      (ps : Members) (m : ClientMessage)
      → decode_cancel_match same_key ps ≡ some m
      → type_of m ≡ type_cancel_match
  unfolding decode_cancel_match
  decode_cancel_match-type ps m h = ground arith

  decode_accept_match-type :
      (ps : Members) (m : ClientMessage)
      → decode_accept_match same_key ps ≡ some m
      → type_of m ≡ type_accept_match
  unfolding decode_accept_match
  decode_accept_match-type ps m h = ground arith

  decode_decline_match-type :
      (ps : Members) (m : ClientMessage)
      → decode_decline_match same_key ps ≡ some m
      → type_of m ≡ type_decline_match
  unfolding decode_decline_match
  decode_decline_match-type ps m h = ground arith

  decode_message-type :
      (ps : Members) (m : ClientMessage)
      → decode_message same_key ps ≡ some m
      → type_of m ≡ type_message
  unfolding decode_message
  decode_message-type ps m h = ground arith

  decode_typing-type :
      (ps : Members) (m : ClientMessage)
      → decode_typing same_key ps ≡ some m
      → type_of m ≡ type_typing
  unfolding decode_typing
  decode_typing-type ps m h = ground arith

  decode_end_chat-type :
      (ps : Members) (m : ClientMessage)
      → decode_end_chat same_key ps ≡ some m
      → type_of m ≡ type_end_chat
  unfolding decode_end_chat
  decode_end_chat-type ps m h = ground arith

  decode_report-type :
      (ps : Members) (m : ClientMessage)
      → decode_report same_key ps ≡ some m
      → type_of m ≡ type_report
  unfolding decode_report
  decode_report-type ps m h = ground arith

  decode_ping-type :
      (ps : Members) (m : ClientMessage) → decode_ping same_key ps ≡ some m → type_of m ≡ type_ping
  unfolding decode_ping
  decode_ping-type ps m h = ground arith

  decode-type :
      (type : String) (ps : Members) (m : ClientMessage)
      → decode same_key type ps ≡ some m
      → type_of m ≡ type
  unfolding decode
  decode-type type ps m =
      first_of type type_set_fingerprint m _ _ (decode_set_fingerprint-type ps m) (
        first_of type type_find_match m _ _ (decode_find_match-type ps m) (
          first_of type type_cancel_match m _ _ (decode_cancel_match-type ps m) (
            first_of type type_accept_match m _ _ (decode_accept_match-type ps m) (
              first_of type type_decline_match m _ _ (decode_decline_match-type ps m) (
                first_of type type_message m _ _ (decode_message-type ps m) (
                  first_of type type_typing m _ _ (decode_typing-type ps m) (
                    first_of type type_end_chat m _ _ (decode_end_chat-type ps m) (
                      first_of type type_report m _ _ (decode_report-type ps m) (
                        first_of type type_ping m _ _ (decode_ping-type ps m)
                          (λ h. absurd (cc h)))))))))))

  parsed-type :
      (value : Json) (t : Option String) (m : ClientMessage)
      → (parsed same_key value t).msg ≡ some m
      → type_of m ≡ (parsed same_key value t).type
  parsed-type value none m h = absurd (cc h)
  parsed-type value (some type) m h = decode-type type (payload value) m h

  -- Whatever the bytes are, a message that is parsed without an error has the type that is returned with
  -- it, and that is one of the ten types that a client sends: an unknown type, and one that only a
  -- server sends, is an error.
  pub parse_client_message-type :
      (data_value : Option Json) (m : ClientMessage)
      → (parse_client_message same_key data_value).msg ≡ some m
      → (type_of m ≡ (parse_client_message same_key data_value).type)
        × (contains (parse_client_message same_key data_value).type client_types ≡ true)
  unfolding parse_client_message
  parse_client_message-type none m h = absurd (cc h)
  parse_client_message-type (some value) m h =
      let e = parsed-type value (envelope_type same_key value) m h in
      (e, subst (λ t. contains t client_types ≡ true) e (known_type m))
