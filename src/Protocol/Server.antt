-- ===== src/Protocol/Server.antt =====
-- NewServerMessage of internal/protocol/messages.go.
use whisper_chat.Prelude.{
  String, ◌≡◌, refl, some, List, [], ◌∷◌, if◌then◌else◌, ◌==◌, nat_eq, text_eq, list_eq,
}
use whisper_chat.Prelude.Dict.{Dict, lookup, insert}
use whisper_chat.Protocol.{Json, null, bool, num, str, array, Items, no_items, item}
use whisper_chat.Protocol.Messages.{
  ServerMessage, session_created, matching_started, match_found, match_accepted, match_declined,
  match_timeout, server_chat, server_typing, partner_left, rate_limited, banned, error, pong,
}

abbrev pub texts_json : List String → Items
texts_json [] = no_items
texts_json (t ∷ l) = item (str t) (texts_json l)

-- A list of texts; where a server sends one, an empty list is a nil slice.
abbrev pub texts_field : List String → Json
texts_field [] = null
texts_field (t ∷ l) = array (texts_json (t ∷ l))

-- The fields of a payload but for the type.
unfoldable pub fields : ServerMessage → Dict String Json
fields (session_created m) = ("session_id", str m.session_id) ∷ []
fields (matching_started m) = ("timeout", num m.timeout) ∷ []
fields (match_found m) =
    ("chat_id", str m.chat_id)
    ∷ ("shared_interests", texts_field m.shared_interests)
    ∷ ("accept_deadline", num m.accept_deadline)
    ∷ []
fields (match_accepted m) = ("chat_id", str m.chat_id) ∷ []
fields match_declined = []
fields match_timeout = []
fields (server_chat m) = ("from", str m.from) ∷ ("text", str m.text) ∷ ("ts", num m.ts) ∷ []
fields (server_typing m) = ("is_typing", bool m.is_typing) ∷ []
fields partner_left = []
fields (rate_limited m) = ("retry_after", num m.retry_after) ∷ []
fields (banned m) = ("duration", num m.duration) ∷ ("reason", str m.reason) ∷ []
fields (error m) = ("code", str m.code) ∷ ("message", str m.message) ∷ []
fields pong = []

-- The payload as a map, with the type put over its own, which is empty.
unfoldable pub new_server_message : String → ServerMessage → Dict String Json
new_server_message msg_type m = insert "type" (str msg_type) (("type", str "") ∷ fields m)

-- A server message has the type that it is given, and the payload's other fields as they are.
pub lookup-new_server_message :
    (msg_type name : String) (m : ServerMessage)
    → lookup name (new_server_message msg_type m)
      ≡ (if "type" == name then some (str msg_type) else lookup name (fields m))
unfolding new_server_message insert lookup
lookup-new_server_message msg_type name m = refl
