-- ===== src/Catalog.antt =====
-- The catalog module (src/modules/catalog): prices, route resolution, estimates and orders.
pub mod Types
pub mod Doubles
pub mod Pricing
pub mod Selection
pub mod RouteResolution
