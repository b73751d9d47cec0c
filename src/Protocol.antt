-- ===== src/Protocol.antt =====
-- internal/protocol/messages.go: the messages between client and server, and JSON as Go's package
-- encoding/json reads and writes it. Texts are those of valid JSON.
pub mod Messages
pub mod Parse
pub mod Exact
pub mod Roundtrip
pub mod Server
pub mod Types
use whisper_chat.Prelude.{
  ℕ, zero, suc, ◌+◌, ◌-◌, ◌*◌, ◌/◌, ◌%◌, ◌^◌, ◌≤◌, ◌<◌, compare, Ordering, String, ◌≡◌, refl, sym,
  ap, ap₂, subst, ◌∙◌, fun_ext, ◌≢◌, ◌↔◌, ◌⊎◌, inl, inr, Bool, true, false, not, ◌&&◌, ◌||◌, Option,
  none, some, List, [], ◌∷◌, ◌++◌, map, arith, ltb, leb, if◌then◌else◌, ltb→lt, lt→ltb, leb→le,
  le→leb, tests, Bool-cases, Option-cases, Eq, ◌==◌, nat_eq, text_eq, list_eq, ==-self, ==-ne,
  length, get_or, set, drop, replicate, length-append, length-set, length-replicate,
  get_or-set_self, get_or-set_ne, All, contains, ==-comm,
}

mutual
  -- The members of an object, in the order of the text.
  pub data Members : Type 0 where
    member : String → Json → Members → Members
    no_members : Members

  pub data Items : Type 0 where
    item : Json → Items → Items
    no_items : Items

  pub data Json : Type 0 where
    object : Members → Json
    array : Items → Json
    str : String → Json
    num : ℕ → Json
    -- Any other number, as it is written: negative, with a fraction or with an exponent.
    other_num : String → Json
    bool : Bool → Json
    null : Json

abbrev pub type_set_fingerprint : String
type_set_fingerprint = "set_fingerprint"

abbrev pub type_find_match : String
type_find_match = "find_match"

abbrev pub type_cancel_match : String
type_cancel_match = "cancel_match"

abbrev pub type_accept_match : String
type_accept_match = "accept_match"

abbrev pub type_decline_match : String
type_decline_match = "decline_match"

abbrev pub type_message : String
type_message = "message"

abbrev pub type_typing : String
type_typing = "typing"

abbrev pub type_end_chat : String
type_end_chat = "end_chat"

abbrev pub type_report : String
type_report = "report"

abbrev pub type_ping : String
type_ping = "ping"

abbrev pub type_session_created : String
type_session_created = "session_created"

abbrev pub type_matching_started : String
type_matching_started = "matching_started"

abbrev pub type_match_found : String
type_match_found = "match_found"

abbrev pub type_match_accepted : String
type_match_accepted = "match_accepted"

abbrev pub type_match_declined : String
type_match_declined = "match_declined"

abbrev pub type_match_timeout : String
type_match_timeout = "match_timeout"

abbrev pub type_partner_left : String
type_partner_left = "partner_left"

abbrev pub type_rate_limited : String
type_rate_limited = "rate_limited"

abbrev pub type_banned : String
type_banned = "banned"

abbrev pub type_error : String
type_error = "error"

abbrev pub type_pong : String
type_pong = "pong"

-- The types that a client sends.
abbrev pub client_types : List String
client_types =
    type_set_fingerprint ∷ type_find_match ∷ type_cancel_match ∷ type_accept_match
    ∷ type_decline_match ∷ type_message ∷ type_typing ∷ type_end_chat ∷ type_report ∷ type_ping ∷ []
