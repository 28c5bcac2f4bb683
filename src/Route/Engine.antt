-- ===== src/Route/Engine.antt =====
-- route-engine.service.ts: the public operations of `RouteEngineService`.
pub mod Plans
pub mod RouteStep
pub mod Standing
pub mod Moves
pub mod Walk
pub mod Stack
pub mod Skip
pub mod OverrideStep
pub mod Complete
pub mod Flag
pub mod Overrides
pub mod Preview
pub mod Activate
pub mod Nested
pub mod Create
pub mod Lifecycle
