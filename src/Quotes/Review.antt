-- ===== src/Quotes/Review.antt =====
-- The review of stored quotes: apps/api/src/quotes/quote-review.service.ts.
pub mod Rows
pub mod Match
pub mod Matched
pub mod Decline
pub mod Resolve
pub mod Declined
pub mod Resolved
pub mod Steps
pub mod History
pub mod Again
