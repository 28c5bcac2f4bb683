-- ===== src/Orders.antt =====
-- Orders and their items, which every module of the program reads and moves along.
pub mod Types
pub mod Lifecycle
pub mod Selected
