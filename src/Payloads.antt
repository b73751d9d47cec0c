-- ===== src/Payloads.antt =====
-- The bytes that NATS carries. Go's encoding/json writes and reads them; it is not part of the
-- repository, and the repository relies on it to read what it wrote.
use whisper_chat.Prelude.{◌≡◌, Option, some, nat_eq, text_eq, list_eq}
use whisper_chat.Chat.Event.{ChatEvent}
use whisper_chat.Moderation.Reviews.{ModerationRequest, ModerationResult}
use whisper_chat.Matching.Payloads.{MatchRequest, CancelRequest, MatchResult, MatchNotification}

-- json.Marshal and json.Unmarshal at one struct, `none` for an error.
pub record Coded (A Data : Type 0) : Type 0 where
  pub marshal : A → Data
  pub unmarshal : Data → Option A
  pub unmarshal-marshal : (a : A) → unmarshal (marshal a) ≡ some a

pub record Codec (Data : Type 0) : Type 0 where
  pub chat_events : Coded ChatEvent Data
  pub match_requests : Coded MatchRequest Data
  pub cancel_requests : Coded CancelRequest Data
  pub match_results : Coded MatchResult Data
  pub match_notifications : Coded MatchNotification Data
  pub moderation_requests : Coded ModerationRequest Data
  pub moderation_results : Coded ModerationResult Data
