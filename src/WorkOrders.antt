-- ===== src/WorkOrders.antt =====
-- Work-order policies of apps/api/src/work-orders.
pub mod Status
pub mod MaterialChange
pub mod Access
pub mod ScopeMismatch
mod Tests
