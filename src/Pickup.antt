-- ===== src/Pickup.antt =====
-- src/modules/pickup: a run collects the items of orders in bags and returns with them.
pub mod Types
pub mod Runs
pub mod Bags
pub mod Machine
