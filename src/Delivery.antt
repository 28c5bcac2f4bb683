-- ===== src/Delivery.antt =====
-- src/modules/delivery: packages leave the factory in the van of a run and reach the customer.
pub mod Types
pub mod Repository
pub mod Packages
pub mod Runs
pub mod Machine
