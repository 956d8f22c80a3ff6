-- ===== src/Quotes.antt =====
-- The quote domain of apps/api/src/quotes: operating models, costs, profitability and pricing.
pub mod PostEvent
pub mod Laundry
pub mod Profitability
pub mod Submission
pub mod CostSource
pub mod CostModel
pub mod Lines
pub mod Primary
pub mod Rooms
pub mod Pricing
pub mod Repricing
pub mod Contract
pub mod Intake
pub mod Review
mod Tests
