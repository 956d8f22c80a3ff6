-- ===== src/Messaging.antt =====
-- The quote conversation of apps/api/src/messaging.
pub mod Draft
pub mod Flow
pub mod State
pub mod Snapshot
pub mod Store
pub mod Service
pub mod Facts
pub mod Identity
mod Tests
