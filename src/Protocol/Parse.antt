-- ===== src/Protocol/Parse.antt =====
-- ParseClientMessage of internal/protocol/messages.go.
use whisper_chat.Prelude.{
  String, Bool, true, false, Option, none, some, List, [], ◌∷◌, if◌then◌else◌, ◌==◌, nat_eq,
  text_eq, list_eq,
}
use whisper_chat.Protocol.{
  Json, null, bool, str, array, object, Items, no_items, item, Members, no_members, member,
  type_set_fingerprint, type_find_match, type_cancel_match, type_accept_match, type_decline_match,
  type_message, type_typing, type_end_chat, type_report, type_ping,
}
use whisper_chat.Protocol.Messages.{
  ClientMessage, set_fingerprint, find_match, cancel_match, accept_match, decline_match, message,
  typing, end_chat, report, ping,
}

infixl 5 ◌>>=◌
abbrev pub ◌>>=◌ {ℓ κ} : {A : Type ℓ} {B : Type κ} → Option A → (A → Option B) → Option B
none >>= k = none
some a >>= k = k a

-- A value into a field that holds `old`; `none` for an error. `null` leaves the field as it is.
abbrev pub text_value : Json → String → Option String
text_value null old = some old
text_value (str t) old = some t
text_value _ old = none

abbrev pub bool_value : Json → Bool → Option Bool
bool_value null old = some old
bool_value (bool b) old = some b
bool_value _ old = none

abbrev pub elem_texts : Items → Option (List String)
elem_texts no_items = some []
elem_texts (item v vs) = do some ((← text_value v "") ∷ (← elem_texts vs))

abbrev pub texts_value : Json → List String → Option (List String)
texts_value null old = some []
texts_value (array vs) old = elem_texts vs
texts_value _ old = none

-- (string, interface{}, error): no message where there is an error.
pub record Parsed : Type 0 where
  pub type : String
  pub msg : Option ClientMessage

abbrev pub payload : Json → Members
payload (object ps) = ps
payload _ = no_members

-- `same_key` is how encoding/json matches the key of an object with the name of a field: exactly, or
-- but for case.
module _ (same_key : String → String → Bool) where
  -- A field of a struct: each key that matches sets it, in the order of the object.
  unfoldable pub read {ℓ} : {A : Type ℓ} → (Json → A → Option A) → String → Members → A → Option A
  read value name no_members old = some old
  read value name (member key v ps) old = elim (same_key key name) [
    | true ↦ (value v old >>= λ new. read value name ps new)
    | false ↦ read value name ps old
  ]

  unfoldable pub read_text : String → Members → Option String
  unfolding read
  read_text name ps = read text_value name ps ""

  unfoldable pub read_bool : String → Members → Option Bool
  unfolding read
  read_bool name ps = read bool_value name ps false

  unfoldable pub read_texts : String → Members → Option (List String)
  unfolding read
  read_texts name ps = read texts_value name ps []

  unfoldable pub decode_set_fingerprint : Members → Option ClientMessage
  decode_set_fingerprint ps = do
    t ← read_text "type" ps
    field_fingerprint ← read_text "fingerprint" ps
    some (set_fingerprint (record { type = t; fingerprint = field_fingerprint }))

  unfoldable pub decode_find_match : Members → Option ClientMessage
  decode_find_match ps = do
    t ← read_text "type" ps
    field_interests ← read_texts "interests" ps
    some (find_match (record { type = t; interests = field_interests }))

  unfoldable pub decode_cancel_match : Members → Option ClientMessage
  decode_cancel_match ps = do t ← read_text "type" ps; some (cancel_match (record { type = t }))

  unfoldable pub decode_accept_match : Members → Option ClientMessage
  decode_accept_match ps = do
    t ← read_text "type" ps
    chat ← read_text "chat_id" ps
    some (accept_match (record { type = t; chat_id = chat }))

  unfoldable pub decode_decline_match : Members → Option ClientMessage
  decode_decline_match ps = do
    t ← read_text "type" ps
    chat ← read_text "chat_id" ps
    some (decline_match (record { type = t; chat_id = chat }))

  unfoldable pub decode_message : Members → Option ClientMessage
  decode_message ps = do
    t ← read_text "type" ps
    chat ← read_text "chat_id" ps
    field_text ← read_text "text" ps
    some (message (record { type = t; chat_id = chat; text = field_text }))

  unfoldable pub decode_typing : Members → Option ClientMessage
  decode_typing ps = do
    t ← read_text "type" ps
    chat ← read_text "chat_id" ps
    field_is_typing ← read_bool "is_typing" ps
    some (typing (record { type = t; chat_id = chat; is_typing = field_is_typing }))

  unfoldable pub decode_end_chat : Members → Option ClientMessage
  decode_end_chat ps = do
    t ← read_text "type" ps
    chat ← read_text "chat_id" ps
    some (end_chat (record { type = t; chat_id = chat }))

  unfoldable pub decode_report : Members → Option ClientMessage
  decode_report ps = do
    t ← read_text "type" ps
    chat ← read_text "chat_id" ps
    field_reason ← read_text "reason" ps
    some (report (record { type = t; chat_id = chat; reason = field_reason }))

  unfoldable pub decode_ping : Members → Option ClientMessage
  decode_ping ps = do t ← read_text "type" ps; some (ping (record { type = t }))

  -- The switch on the type; `none` for a type that no client sends.
  unfoldable pub decode : String → Members → Option ClientMessage
  decode type ps =
      if type == type_set_fingerprint
      then decode_set_fingerprint ps
      else if type == type_find_match
      then decode_find_match ps
      else if type == type_cancel_match
      then decode_cancel_match ps
      else if type == type_accept_match
      then decode_accept_match ps
      else if type == type_decline_match
      then decode_decline_match ps
      else if type == type_message
      then decode_message ps
      else if type == type_typing
      then decode_typing ps
      else if type == type_end_chat
      then decode_end_chat ps
      else if type == type_report
      then decode_report ps
      else if type == type_ping
      then decode_ping ps
      else none

  -- Envelope.UnmarshalJSON: the type, which is to be there.
  unfoldable pub envelope_type : Json → Option String
  envelope_type (object ps) = do t ← read_text "type" ps; (if t == "" then none else some t)
  envelope_type _ = none

  abbrev pub parsed : Json → Option String → Parsed
  parsed value none = record { type = ""; msg = none }
  parsed value (some type) = record { type = type; msg = decode type (payload value) }

  -- ParseClientMessage on the value that the bytes stand for; `none` for bytes that are no JSON.
  unfoldable pub parse_client_message : Option Json → Parsed
  parse_client_message none = record { type = ""; msg = none }
  parse_client_message (some value) = parsed value (envelope_type value)
