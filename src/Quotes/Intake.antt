-- ===== src/Quotes/Intake.antt =====
-- Quotes as they are stored: the idempotent submission of apps/api/src/quotes.
pub mod Records
pub mod Canonical
pub mod Replay
pub mod Submit
pub mod Codes
pub mod Stored
pub mod Once
pub mod Fresh
pub mod Again
pub mod Settled
