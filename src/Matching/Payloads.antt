-- ===== src/Matching/Payloads.antt =====
-- What the matching service and the WebSocket server send each other: the structs of
-- internal/matching/service.go and publisher.go.
use whisper_chat.Prelude.{ℕ, String, Bool, List, nat_eq, text_eq, list_eq}

pub record MatchRequest : Type 0 where
  pub session_id : String
  pub interests : List String

pub record CancelRequest : Type 0 where
  pub session_id : String

pub record MatchResult : Type 0 where
  pub timeout : Bool
  pub chat_id : String
  pub partner_id : String
  pub shared_interests : List String
  pub accept_deadline : ℕ

pub record MatchNotification : Type 0 where
  pub type : String
  pub chat_id : String
