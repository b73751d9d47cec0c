-- ===== src/Protocol/Messages.antt =====
-- The structs of internal/protocol/messages.go. `type` is left out of those that a server sends, which
-- NewServerMessage writes over.
use whisper_chat.Prelude.{ℕ, String, Bool, List, nat_eq, text_eq, list_eq}

pub record SetFingerprintMsg : Type 0 where
  pub type : String
  pub fingerprint : String

pub record FindMatchMsg : Type 0 where
  pub type : String
  pub interests : List String

pub record CancelMatchMsg : Type 0 where
  pub type : String

pub record AcceptMatchMsg : Type 0 where
  pub type : String
  pub chat_id : String

pub record DeclineMatchMsg : Type 0 where
  pub type : String
  pub chat_id : String

pub record ChatMsg : Type 0 where
  pub type : String
  pub chat_id : String
  pub text : String

pub record TypingMsg : Type 0 where
  pub type : String
  pub chat_id : String
  pub is_typing : Bool

pub record EndChatMsg : Type 0 where
  pub type : String
  pub chat_id : String

pub record ReportMsg : Type 0 where
  pub type : String
  pub chat_id : String
  pub reason : String

pub record PingMsg : Type 0 where
  pub type : String

-- What ParseClientMessage returns: a value of one of the structs.
pub data ClientMessage : Type 0 where
  set_fingerprint : SetFingerprintMsg → ClientMessage
  find_match : FindMatchMsg → ClientMessage
  cancel_match : CancelMatchMsg → ClientMessage
  accept_match : AcceptMatchMsg → ClientMessage
  decline_match : DeclineMatchMsg → ClientMessage
  message : ChatMsg → ClientMessage
  typing : TypingMsg → ClientMessage
  end_chat : EndChatMsg → ClientMessage
  report : ReportMsg → ClientMessage
  ping : PingMsg → ClientMessage

pub record SessionCreatedMsg : Type 0 where
  pub session_id : String

pub record MatchingStartedMsg : Type 0 where
  pub timeout : ℕ

pub record MatchFoundMsg : Type 0 where
  pub chat_id : String
  pub shared_interests : List String
  pub accept_deadline : ℕ

pub record MatchAcceptedMsg : Type 0 where
  pub chat_id : String

pub record ServerChatMsg : Type 0 where
  pub from : String
  pub text : String
  pub ts : ℕ

pub record ServerTypingMsg : Type 0 where
  pub is_typing : Bool

pub record RateLimitedMsg : Type 0 where
  pub retry_after : ℕ

pub record BannedMsg : Type 0 where
  pub duration : ℕ
  pub reason : String

pub record ErrorMsg : Type 0 where
  pub code : String
  pub message : String

-- The payloads of NewServerMessage.
pub data ServerMessage : Type 0 where
  session_created : SessionCreatedMsg → ServerMessage
  matching_started : MatchingStartedMsg → ServerMessage
  match_found : MatchFoundMsg → ServerMessage
  match_accepted : MatchAcceptedMsg → ServerMessage
  match_declined : ServerMessage
  match_timeout : ServerMessage
  server_chat : ServerChatMsg → ServerMessage
  server_typing : ServerTypingMsg → ServerMessage
  partner_left : ServerMessage
  rate_limited : RateLimitedMsg → ServerMessage
  banned : BannedMsg → ServerMessage
  error : ErrorMsg → ServerMessage
  pong : ServerMessage
