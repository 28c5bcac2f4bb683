-- ===== src/Exception.antt =====
-- src/modules/exception: the answers of customers to approval requests.
pub mod Approval
