-- ===== src/Route.antt =====
-- The processing route engine (src/modules/processing-route/domain).
pub mod Types
pub mod NextStep
pub mod Db
pub mod View
pub mod Load
pub mod Engine
