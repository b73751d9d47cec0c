-- ===== src/Moderation.antt =====
-- internal/moderation: the content filter. A Go string is the list of the runes that a `range` loop
-- gives, an invalid byte being the rune 0xFFFD (`Chat.Utf8`).
pub mod Reviews
pub mod Filter
pub mod Spam
pub mod Patterns
pub mod Unicode
pub mod Words
