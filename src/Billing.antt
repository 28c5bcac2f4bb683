-- ===== src/Billing.antt =====
-- The billing module (src/modules/billing): the repository, the service and the use cases.
pub mod Types
pub mod Repository
pub mod Service
pub mod Claim
pub mod Access
pub mod Resolve
pub mod Idempotent
pub mod Supplement
