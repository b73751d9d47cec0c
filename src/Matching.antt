-- ===== src/Matching.antt =====
-- internal/matching: the queue of users who wait for a partner.
pub mod Cleanup
pub mod Overlap
pub mod Service
pub mod Payloads
pub mod Tags
pub mod Queue
pub mod Tiers
