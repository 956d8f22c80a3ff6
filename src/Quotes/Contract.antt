-- ===== src/Quotes/Contract.antt =====
-- The contract of quote submissions: apps/api/src/quotes/website-quote-contract.ts and
-- website-quote-contract-v2.ts, with post-event-cleaning-quote-facts.ts and
-- quote-business-facts-validation.ts.
pub mod Platform
pub mod Fields
pub mod Customer
pub mod Property
pub mod Request
pub mod Visit
pub mod Photos
pub mod V1
pub mod PostEventFacts
pub mod V2
pub mod BusinessFacts
