-- ===== src/Chat.antt =====
-- internal/chat: message validation, the buffer of recent messages, and the chat sessions in Redis.
pub mod Event
pub mod Store
pub mod Utf8
pub mod Validator
pub mod Buffer
