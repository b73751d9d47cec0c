-- ===== src/Moderation/Reviews.antt =====
-- internal/moderation/types.go. A term is a list of code points, as the filter gives it.
use whisper_chat.Prelude.{ℕ, String, Bool, List, nat_eq, text_eq, list_eq}

pub record ModerationRequest : Type 0 where
  pub session_id : String
  pub chat_id : String
  pub text : String
  pub ts : ℕ

pub record ModerationResult : Type 0 where
  pub session_id : String
  pub chat_id : String
  pub blocked : Bool
  pub reason : String
  pub term : List ℕ
