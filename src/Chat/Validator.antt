-- ===== src/Chat/Validator.antt =====
-- internal/chat/validator.go.

pub mod Accepts
use whisper_chat.Prelude.{
  ℕ, zero, suc, ◌+◌, ◌-◌, ◌*◌, ◌/◌, ◌%◌, ◌^◌, ◌≤◌, ◌<◌, compare, Ordering, String, ◌≡◌, refl, sym,
  ap, ap₂, subst, ◌∙◌, fun_ext, ◌≢◌, ◌↔◌, ◌⊎◌, inl, inr, Bool, true, false, not, ◌&&◌, ◌||◌, Option,
  none, some, List, [], ◌∷◌, ◌++◌, map, arith, ltb, leb, if◌then◌else◌, ltb→lt, lt→ltb, leb→le,
  le→leb, tests, Bool-cases, Option-cases, Eq, ◌==◌, nat_eq, text_eq, list_eq, ==-self, ==-ne,
  length, get_or, set, drop, replicate, length-append, length-set, length-replicate,
  get_or-set_self, get_or-set_ne, All, contains,
}
use whisper_chat.Chat.Utf8.{rune_count, valid_string}

abbrev pub max_message_bytes : ℕ
max_message_bytes = 4096

abbrev pub max_text_chars : ℕ
max_text_chars = 2000

pub data InvalidMessage : Type 0 where
  empty too_many_bytes too_many_chars invalid_utf8 : InvalidMessage

-- `none` is Go's nil error.
unfoldable pub validate_message : List ℕ → Option InvalidMessage
validate_message text =
    if length text == 0
    then some empty
    else if ltb max_message_bytes (length text)
    then some too_many_bytes
    else if ltb max_text_chars (rune_count text)
    then some too_many_chars
    else if not (valid_string text)
    then some invalid_utf8
    else none
