-- ===== src/Attention.antt =====
-- The items that need attention, of apps/api/src/attention.
pub mod Policy
pub mod Reconcile
pub mod Ownership
mod Tests
