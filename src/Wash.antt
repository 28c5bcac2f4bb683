-- ===== src/Wash.antt =====
-- src/modules/wash: the factory tags items, puts them on a route, scans them and packs them.
pub mod Types
pub mod Views
pub mod Agrees
pub mod Items
pub mod Packages
pub mod Effects
pub mod Scanned
pub mod Scans
pub mod Outcome
pub mod Bills
pub mod Machine
