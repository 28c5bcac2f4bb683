-- ===== src/Tests.antt =====
-- The theorems at work on small databases.
pub mod Tables
pub mod RouteData
pub mod Route
pub mod Plans
pub mod Flows
pub mod Billing
pub mod Delivery
pub mod Pickup
pub mod Wash
pub mod Exception
pub mod Catalog
pub mod Errors
