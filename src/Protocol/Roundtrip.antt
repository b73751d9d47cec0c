-- ===== src/Protocol/Roundtrip.antt =====
-- ParseClientMessage of internal/protocol/messages.go reads back what a client writes.
use whisper_chat.Prelude.{
  String, ◌≡◌, refl, ◌∙◌, Bool, true, some, List, [], ◌∷◌, ◌==◌, nat_eq, text_eq, list_eq, contains,
}
use whisper_chat.Protocol.{
  bool, str, array, object, Members, no_members, member, type_set_fingerprint, type_find_match,
  type_cancel_match, type_accept_match, type_decline_match, type_message, type_typing,
  type_end_chat, type_report, type_ping,
}
use whisper_chat.Protocol.Messages.{
  ClientMessage, set_fingerprint, find_match, cancel_match, accept_match, decline_match, message,
  typing, end_chat, report, ping,
}
use whisper_chat.Protocol.Parse.{
  elem_texts, read, read_text, read_bool, read_texts, decode, envelope_type, parse_client_message,
  decode_set_fingerprint, decode_find_match, decode_cancel_match, decode_accept_match,
  decode_decline_match, decode_message, decode_typing, decode_end_chat, decode_report, decode_ping,
}
use whisper_chat.Protocol.Server.{texts_json}
use whisper_chat.Protocol.Exact.{field_names, known, exact, parse_client_message-exact}

-- The type of a message, and the message with that type in its field.
abbrev pub type_of : ClientMessage → String
type_of (set_fingerprint m) = type_set_fingerprint
type_of (find_match m) = type_find_match
type_of (cancel_match m) = type_cancel_match
type_of (accept_match m) = type_accept_match
type_of (decline_match m) = type_decline_match
type_of (message m) = type_message
type_of (typing m) = type_typing
type_of (end_chat m) = type_end_chat
type_of (report m) = type_report
type_of (ping m) = type_ping

abbrev pub stamp : ClientMessage → ClientMessage
stamp (set_fingerprint m) = set_fingerprint (record m { type = type_set_fingerprint })
stamp (find_match m) = find_match (record m { type = type_find_match })
stamp (cancel_match m) = cancel_match (record m { type = type_cancel_match })
stamp (accept_match m) = accept_match (record m { type = type_accept_match })
stamp (decline_match m) = decline_match (record m { type = type_decline_match })
stamp (message m) = message (record m { type = type_message })
stamp (typing m) = typing (record m { type = type_typing })
stamp (end_chat m) = end_chat (record m { type = type_end_chat })
stamp (report m) = report (record m { type = type_report })
stamp (ping m) = ping (record m { type = type_ping })

-- The object that a client sends.
abbrev pub props_of : ClientMessage → Members
props_of (set_fingerprint m) =
    member "type" (str type_set_fingerprint) (member "fingerprint" (str m.fingerprint) no_members)
props_of (find_match m) =
    member "type" (str type_find_match)
      (member "interests" (array (texts_json m.interests)) no_members)
props_of (cancel_match m) = member "type" (str type_cancel_match) no_members
props_of (accept_match m) =
    member "type" (str type_accept_match) (member "chat_id" (str m.chat_id) no_members)
props_of (decline_match m) =
    member "type" (str type_decline_match) (member "chat_id" (str m.chat_id) no_members)
props_of (message m) =
    member "type" (str type_message)
      (member "chat_id" (str m.chat_id) (member "text" (str m.text) no_members))
props_of (typing m) =
    member "type" (str type_typing)
      (member "chat_id" (str m.chat_id) (member "is_typing" (bool m.is_typing) no_members))
props_of (end_chat m) =
    member "type" (str type_end_chat) (member "chat_id" (str m.chat_id) no_members)
props_of (report m) =
    member "type" (str type_report)
      (member "chat_id" (str m.chat_id) (member "reason" (str m.reason) no_members))
props_of (ping m) = member "type" (str type_ping) no_members

elem_texts-texts_json : (l : List String) → elem_texts (texts_json l) ≡ some l
elem_texts-texts_json [] = refl
elem_texts-texts_json (t ∷ l) = rw (elem_texts-texts_json l)

known-props_of : (m : ClientMessage) → known (props_of m) ≡ true
unfolding contains
known-props_of (set_fingerprint m) = refl
known-props_of (find_match m) = refl
known-props_of (cancel_match m) = refl
known-props_of (accept_match m) = refl
known-props_of (decline_match m) = refl
known-props_of (message m) = refl
known-props_of (typing m) = refl
known-props_of (end_chat m) = refl
known-props_of (report m) = refl
known-props_of (ping m) = refl

parse_exact :
    (m : ClientMessage)
    → parse_client_message exact (some (object (props_of m)))
      ≡ record { type = type_of m; msg = some (stamp m) }
unfolding parse_client_message envelope_type decode read read_text read_bool read_texts
    decode_set_fingerprint decode_find_match decode_cancel_match decode_accept_match
    decode_decline_match decode_message decode_typing decode_end_chat decode_report decode_ping
parse_exact (set_fingerprint m) = refl
parse_exact (find_match m) = rw (elem_texts-texts_json m.interests)
parse_exact (cancel_match m) = refl
parse_exact (accept_match m) = refl
parse_exact (decline_match m) = refl
parse_exact (message m) = refl
parse_exact (typing m) = refl
parse_exact (end_chat m) = refl
parse_exact (report m) = refl
parse_exact (ping m) = refl

module _ (same_key : String → String → Bool)
    (names_apart : (a b : String)
      → contains a field_names ≡ true
      → contains b field_names ≡ true
      → same_key a b ≡ (a == b)) where
  -- If encoding/json tells the names of the fields apart, the object of any message is read back as that
  -- message, with its type in the field `type`.
  pub parse_client_message-props_of :
      (m : ClientMessage)
      → parse_client_message same_key (some (object (props_of m)))
        ≡ record { type = type_of m; msg = some (stamp m) }
  parse_client_message-props_of m =
      parse_client_message-exact same_key names_apart (props_of m) (known-props_of m)
      ∙ parse_exact m
