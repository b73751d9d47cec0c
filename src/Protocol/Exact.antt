-- ===== src/Protocol/Exact.antt =====
-- Where the names of fields differ by more than case, ParseClientMessage of
-- internal/protocol/messages.go reads an object by exact names.
use whisper_chat.Prelude.{
  String, ◌≡◌, refl, ap, ◌∙◌, fun_ext, inl, inr, Bool, true, false, ◌&&◌, Option, none, some, List,
  [], ◌∷◌, arith, Bool-cases, ◌==◌, nat_eq, text_eq, list_eq, contains,
}
use whisper_chat.Protocol.{Json, object, Members, no_members, member}
use whisper_chat.Protocol.Parse.{
  ◌>>=◌, text_value, bool_value, texts_value, read, read_text, read_bool, read_texts, decode,
  envelope_type, parsed, parse_client_message, decode_set_fingerprint, decode_find_match,
  decode_cancel_match, decode_accept_match, decode_decline_match, decode_message, decode_typing,
  decode_end_chat, decode_report, decode_ping,
}

-- The names of the fields of the client's structs.
abbrev pub field_names : List String
field_names =
    "type" ∷ "fingerprint" ∷ "interests" ∷ "chat_id" ∷ "text" ∷ "is_typing" ∷ "reason" ∷ []

abbrev pub known : Members → Bool
known no_members = true
known (member key v ps) = contains key field_names && known ps

and_both : (a b : Bool) → (a && b) ≡ true → (a ≡ true) × (b ≡ true)
and_both a b h = ground (arith, h)

abbrev pub exact : String → String → Bool
exact a b = a == b

module _ (same_key : String → String → Bool)
    (names_apart : (a b : String)
      → contains a field_names ≡ true
      → contains b field_names ≡ true
      → same_key a b ≡ (a == b)) where
  read-exact {ℓ} :
      {A : Type ℓ} (value : Json → A → Option A) (name : String) (ps : Members) (old : A)
      → known ps ≡ true
      → contains name field_names ≡ true
      → read same_key value name ps old ≡ read exact value name ps old
  unfolding read
  read-exact value name no_members old k h = refl
  read-exact value name (member key v ps) old k h =
      let (first, rest) = and_both (contains key field_names) (known ps) k in
      let e : same_key key name ≡ (key == name) = names_apart key name first h in
      elim (Bool-cases (key == name)) [
        | inl same ↦
            let yes_same : same_key key name ≡ true = e ∙ same in
            rw (read, yes_same, same)
              (ap (λ f. value v old >>= f) (fun_ext (λ new. read-exact value name ps new rest h)))
        | inr other ↦
            let not_same : same_key key name ≡ false = e ∙ other in
            rw (read, not_same, other) (read-exact value name ps old rest h)
      ]

  read_text-exact :
      (name : String) (ps : Members)
      → known ps ≡ true
      → contains name field_names ≡ true
      → read_text same_key name ps ≡ read_text exact name ps
  unfolding read_text
  read_text-exact name ps k h = read-exact text_value name ps _ k h

  read_bool-exact :
      (name : String) (ps : Members)
      → known ps ≡ true
      → contains name field_names ≡ true
      → read_bool same_key name ps ≡ read_bool exact name ps
  unfolding read_bool
  read_bool-exact name ps k h = read-exact bool_value name ps _ k h

  read_texts-exact :
      (name : String) (ps : Members)
      → known ps ≡ true
      → contains name field_names ≡ true
      → read_texts same_key name ps ≡ read_texts exact name ps
  unfolding read_texts
  read_texts-exact name ps k h = read-exact texts_value name ps _ k h

  decode_set_fingerprint-exact :
      (ps : Members)
      → known ps ≡ true
      → decode_set_fingerprint same_key ps ≡ decode_set_fingerprint exact ps
  unfolding decode_set_fingerprint contains
  decode_set_fingerprint-exact ps k =
      rw (read_text-exact "type" ps k refl, read_text-exact "fingerprint" ps k refl)

  decode_find_match-exact :
      (ps : Members) → known ps ≡ true → decode_find_match same_key ps ≡ decode_find_match exact ps
  unfolding decode_find_match contains
  decode_find_match-exact ps k =
      rw (read_text-exact "type" ps k refl, read_texts-exact "interests" ps k refl)

  decode_cancel_match-exact :
      (ps : Members)
      → known ps ≡ true
      → decode_cancel_match same_key ps ≡ decode_cancel_match exact ps
  unfolding decode_cancel_match contains
  decode_cancel_match-exact ps k = rw (read_text-exact "type" ps k refl)

  decode_accept_match-exact :
      (ps : Members)
      → known ps ≡ true
      → decode_accept_match same_key ps ≡ decode_accept_match exact ps
  unfolding decode_accept_match contains
  decode_accept_match-exact ps k =
      rw (read_text-exact "type" ps k refl, read_text-exact "chat_id" ps k refl)

  decode_decline_match-exact :
      (ps : Members)
      → known ps ≡ true
      → decode_decline_match same_key ps ≡ decode_decline_match exact ps
  unfolding decode_decline_match contains
  decode_decline_match-exact ps k =
      rw (read_text-exact "type" ps k refl, read_text-exact "chat_id" ps k refl)

  decode_message-exact :
      (ps : Members) → known ps ≡ true → decode_message same_key ps ≡ decode_message exact ps
  unfolding decode_message contains
  decode_message-exact ps k = rw (
    read_text-exact "type" ps k refl,
    read_text-exact "chat_id" ps k refl,
    read_text-exact "text" ps k refl,
  )

  decode_typing-exact :
      (ps : Members) → known ps ≡ true → decode_typing same_key ps ≡ decode_typing exact ps
  unfolding decode_typing contains
  decode_typing-exact ps k = rw (
    read_text-exact "type" ps k refl,
    read_text-exact "chat_id" ps k refl,
    read_bool-exact "is_typing" ps k refl,
  )

  decode_end_chat-exact :
      (ps : Members) → known ps ≡ true → decode_end_chat same_key ps ≡ decode_end_chat exact ps
  unfolding decode_end_chat contains
  decode_end_chat-exact ps k =
      rw (read_text-exact "type" ps k refl, read_text-exact "chat_id" ps k refl)

  decode_report-exact :
      (ps : Members) → known ps ≡ true → decode_report same_key ps ≡ decode_report exact ps
  unfolding decode_report contains
  decode_report-exact ps k = rw (
    read_text-exact "type" ps k refl,
    read_text-exact "chat_id" ps k refl,
    read_text-exact "reason" ps k refl,
  )

  decode_ping-exact :
      (ps : Members) → known ps ≡ true → decode_ping same_key ps ≡ decode_ping exact ps
  unfolding decode_ping contains
  decode_ping-exact ps k = rw (read_text-exact "type" ps k refl)

  decode-exact :
      (type : String) (ps : Members)
      → known ps ≡ true
      → decode same_key type ps ≡ decode exact type ps
  unfolding decode
  decode-exact type ps k = rw (
    decode_set_fingerprint-exact ps k,
    decode_find_match-exact ps k,
    decode_cancel_match-exact ps k,
    decode_accept_match-exact ps k,
    decode_decline_match-exact ps k,
    decode_message-exact ps k,
    decode_typing-exact ps k,
    decode_end_chat-exact ps k,
    decode_report-exact ps k,
    decode_ping-exact ps k,
  )

  envelope_type-exact :
      (ps : Members)
      → known ps ≡ true
      → envelope_type same_key (object ps) ≡ envelope_type exact (object ps)
  unfolding envelope_type contains
  envelope_type-exact ps k = rw (read_text-exact "type" ps k refl)

  parsed-exact :
      (ps : Members) (t : Option String)
      → known ps ≡ true
      → parsed same_key (object ps) t ≡ parsed exact (object ps) t
  parsed-exact ps none k = refl
  parsed-exact ps (some type) k = ap (λ m. record { type = type; msg = m }) (decode-exact type ps k)

  pub parse_client_message-exact :
      (ps : Members)
      → known ps ≡ true
      → parse_client_message same_key (some (object ps))
        ≡ parse_client_message exact (some (object ps))
  unfolding parse_client_message
  parse_client_message-exact ps k =
      ap (parsed same_key (object ps)) (envelope_type-exact ps k)
      ∙ parsed-exact ps (envelope_type exact (object ps)) k
