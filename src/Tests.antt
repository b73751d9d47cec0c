-- ===== src/Tests.antt =====
-- The properties at concrete inputs.
pub mod HandlerTests
pub mod Rankings
pub mod WsserverTests
pub mod MessagingTests
pub mod WsTests
pub mod Fakes
pub mod MatchingTests
pub mod SessionTests
mod ChatTests
mod AbuseTests
mod FilterTests
