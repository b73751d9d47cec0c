-- ===== src/Chat/Event.antt =====
-- internal/chat/event.go.
use whisper_chat.Prelude.{ℕ, String, Bool, nat_eq, text_eq, list_eq}

pub record ChatEvent : Type 0 where
  pub type : String
  pub from : String
  pub text : String
  pub is_typing : Bool
  pub ts : ℕ
